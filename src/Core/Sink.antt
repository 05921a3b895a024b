-- ===== src/Core/Sink.antt =====
-- The sinks of the front end, include/sturm/core/sink.hpp, recording_sink.hpp and
-- counter_sink.hpp. The angles and probabilities are a parameter, since they are only stored;
-- the counter map is an association list, where a missing operation counts 0.
pub mod Agreement
pub mod Scoped
use sturm_cpp.Common.{ℕ, ◌+◌, ◌%◌, ◌^◌, ◌==◌, Option, List, [], ◌∷◌, ◌++◌, if◌then◌else◌}
use sturm_cpp.Common.Int.{ℤ, negsuc}
use sturm_cpp.Common.Text.{String, str_eq}

-- The operations of two registers, and the comparisons.
pub data BinaryOp : Type 0 where
  op_add op_sub op_mul op_div op_mod op_pow op_xor op_and op_or op_shl op_shr : BinaryOp

pub data CompareOp : Type 0 where
  op_eq op_neq op_lt op_le op_gt op_ge : CompareOp

-- One call of a method of a sink.
pub data SinkCall (Double : Type 0) : Type 0 where
  quantum_binary : BinaryOp → List ℤ → List ℤ → ℤ → SinkCall Double
  quantum_not : List ℤ → ℤ → SinkCall Double
  quantum_compare : CompareOp → List ℤ → List ℤ → ℤ → ℤ → SinkCall Double
  theta_add : ℤ → Double → ℤ → SinkCall Double
  phi_add : ℤ → Double → ℤ → SinkCall Double
  prepare : ℤ → Double → SinkCall Double
  qram_read qrom_read qreg_read : SinkCall Double

abbrev pub binary_name : BinaryOp → String
binary_name op_add = "quantum_add"
binary_name op_sub = "quantum_sub"
binary_name op_mul = "quantum_mul"
binary_name op_div = "quantum_div"
binary_name op_mod = "quantum_mod"
binary_name op_pow = "quantum_pow"
binary_name op_xor = "quantum_xor"
binary_name op_and = "quantum_and"
binary_name op_or = "quantum_or"
binary_name op_shl = "quantum_shl"
binary_name op_shr = "quantum_shr"

abbrev pub compare_name : CompareOp → String
compare_name op_eq = "quantum_eq"
compare_name op_neq = "quantum_neq"
compare_name op_lt = "quantum_lt"
compare_name op_le = "quantum_le"
compare_name op_gt = "quantum_gt"
compare_name op_ge = "quantum_ge"

pub record Record (Double : Type 0) : Type 0 where
  pub op : String
  pub qubit_groups : List (List ℤ)
  pub scalars : List Double
  pub control : ℤ

-- `counts_` of a counter sink.
abbrev pub Counts : Type 0
Counts = List (String × ℕ)

unfoldable pub count : Counts → String → ℕ
count [] op = 0
count ((name, n) ∷ rest) op = if str_eq name op then n else count rest op

abbrev reset : Counts → Counts
reset counts = []

-- The numbers of type `size_t` have 64 bits.
unfoldable pub bump : String → Counts → Counts
bump op [] = (op, 1) ∷ []
bump op ((name, n) ∷ rest) =
    if str_eq name op then (name, (n + 1) % 2 ^ 64) ∷ rest else (name, n) ∷ bump op rest

module _ {Double : Type 0} where
  unfoldable pub push_binary :
      String → List ℤ → List ℤ → ℤ → List (Record Double) → List (Record Double)
  push_binary op a b ctrl records =
      records ++ record { op = op; qubit_groups = a ∷ b ∷ []; scalars = []; control = ctrl } ∷ []

  unfoldable pub push_compare :
      String → List ℤ → List ℤ → ℤ → ℤ → List (Record Double) → List (Record Double)
  push_compare op a b result_qubit ctrl records =
      records
      ++ record {
        op = op;
        qubit_groups = a ∷ b ∷ (result_qubit ∷ []) ∷ [];
        scalars = [];
        control = ctrl;
      }
        ∷ []

  abbrev clear : List (Record Double) → List (Record Double)
  clear records = []

  -- The methods of the recording sink; it has none for `qram_read`.
  unfoldable pub recording_call : SinkCall Double → List (Record Double) → List (Record Double)
  unfolding push_binary push_compare
  recording_call (quantum_binary op a b ctrl) rs = push_binary (binary_name op) a b ctrl rs
  recording_call (quantum_not a ctrl) rs =
      rs ++ record { op = "quantum_not"; qubit_groups = a ∷ []; scalars = []; control = ctrl } ∷ []
  recording_call (quantum_compare op a b rq ctrl) rs = push_compare (compare_name op) a b rq ctrl rs
  recording_call (theta_add q d ctrl) rs =
      rs
      ++ record { op = "theta_add"; qubit_groups = (q ∷ []) ∷ []; scalars = d ∷ []; control = ctrl }
        ∷ []
  recording_call (phi_add q d ctrl) rs =
      rs
      ++ record { op = "phi_add"; qubit_groups = (q ∷ []) ∷ []; scalars = d ∷ []; control = ctrl }
        ∷ []
  recording_call (prepare q p) rs =
      rs
      ++ record {
        op = "prepare";
        qubit_groups = (q ∷ []) ∷ [];
        scalars = p ∷ [];
        control = negsuc 0;
      }
        ∷ []
  recording_call qram_read rs = rs
  recording_call qrom_read rs =
      rs ++ record { op = "qrom_read"; qubit_groups = []; scalars = []; control = negsuc 0 } ∷ []
  recording_call qreg_read rs =
      rs ++ record { op = "qreg_read"; qubit_groups = []; scalars = []; control = negsuc 0 } ∷ []

  -- The methods of the counter sink.
  unfoldable pub counter_call : SinkCall Double → Counts → Counts
  unfolding bump
  counter_call (quantum_binary op _ _ _) counts = bump (binary_name op) counts
  counter_call (quantum_not _ _) counts = bump "quantum_not" counts
  counter_call (quantum_compare op _ _ _ _) counts = bump (compare_name op) counts
  counter_call (theta_add _ _ _) counts = bump "theta_add" counts
  counter_call (phi_add _ _ _) counts = bump "phi_add" counts
  counter_call (prepare _ _) counts = bump "prepare" counts
  counter_call qram_read counts = bump "qram_read" counts
  counter_call qrom_read counts = bump "qrom_read" counts
  counter_call qreg_read counts = bump "qreg_read" counts

-- A sink of either kind.
pub data Sink (Double : Type 0) : Type 0 where
  recording : List (Record Double) → Sink Double
  counter : Counts → Sink Double

-- The sinks by their addresses, and the sink of the thread.
pub record SinkState (Double : Type 0) : Type 0 where
  pub sinks : ℕ → Sink Double
  pub g_sink : ℕ

module _ {Double : Type 0} where
  unfoldable pub method_call : SinkCall Double → Sink Double → Sink Double
  unfolding recording_call counter_call
  method_call c (recording rs) = recording (recording_call c rs)
  method_call c (counter counts) = counter (counter_call c counts)

  abbrev pub current_sink : SinkState Double → ℕ
  current_sink st = st.g_sink

  unfoldable pub set_current_sink : ℕ → SinkState Double → SinkState Double
  set_current_sink s st = record st { g_sink = s }

  -- `current_sink()->op(...)`
  unfoldable pub call_current : SinkCall Double → SinkState Double → SinkState Double
  unfolding method_call
  call_current c st = record st {
    sinks = λ s. if s == current_sink st then method_call c (st.sinks s) else st.sinks s;
  }

  -- A `ScopedSink` around a body: the constructor saves the sink of the thread and installs
  -- its own, the destructor installs the saved one.
  unfoldable pub scoped_sink :
      ℕ → (SinkState Double → SinkState Double) → SinkState Double → SinkState Double
  unfolding set_current_sink
  scoped_sink s body st =
      let prev = current_sink st in set_current_sink prev (body (set_current_sink s st))
