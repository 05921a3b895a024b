-- ===== src/Core/Sink/Agreement.antt =====
-- The recording sink and the counter sink on the same calls.

use sturm_cpp.Common.{ℕ, ◌+◌, ◌%◌, ◌^◌, ◌≡◌, ◌≢◌, refl, List, [], ◌∷◌, ◌++◌, arith, if◌then◌else◌}
use sturm_cpp.Common.Text.{String, str_eq, eq_iff}
use sturm_cpp.Core.Sink.{
  SinkCall, quantum_binary, quantum_not, quantum_compare, theta_add, phi_add, prepare, qram_read,
  qrom_read, qreg_read, Record, Counts, count, bump, recording_call, counter_call, push_binary,
  push_compare,
}

count-bump :
    (op : String) (counts : Counts) (key : String)
    → count (bump op counts) key
      ≡ (if str_eq op key then (count counts key + 1) % 2 ^ 64 else count counts key)
unfolding count bump
count-bump op [] key = ground arith
count-bump op ((name, n) ∷ rest) key =
    ground (arith, count-bump op rest key, eq_iff name op, eq_iff op key, eq_iff name key)

module _ {Double : Type 0} where
  -- How many of the records have the name.
  unfoldable pub occurrences : List (Record Double) → String → ℕ
  occurrences [] key = 0
  occurrences (r ∷ rs) key = (if str_eq r.op key then 1 else 0) + occurrences rs key

  occurrences-append :
      (rs qs : List (Record Double)) (key : String)
      → occurrences (rs ++ qs) key ≡ occurrences rs key + occurrences qs key
  unfolding occurrences
  occurrences-append [] qs key = omega arith
  occurrences-append (r ∷ rs) qs key = omega (arith, occurrences-append rs qs key)

  unfoldable pub recording_all :
      List (SinkCall Double) → List (Record Double) → List (Record Double)
  recording_all [] rs = rs
  recording_all (c ∷ cs) rs = recording_all cs (recording_call c rs)

  unfoldable pub counter_all : List (SinkCall Double) → Counts → Counts
  counter_all [] counts = counts
  counter_all (c ∷ cs) counts = counter_all cs (counter_call c counts)

  -- A record at the end is counted like a bump of its operation.
  record-agrees :
      (r : Record Double) (rs : List (Record Double)) (counts : Counts) (key : String)
      → count counts key ≡ occurrences rs key % 2 ^ 64
      → count (bump r.op counts) key ≡ occurrences (rs ++ r ∷ []) key % 2 ^ 64
  unfolding occurrences
  record-agrees r rs counts key e =
      ground (arith, count-bump r.op counts key, occurrences-append rs (r ∷ []) key, e)

  call-agrees :
      (c : SinkCall Double) (rs : List (Record Double)) (counts : Counts) (key : String)
      → key ≢ "qram_read"
      → count counts key ≡ occurrences rs key % 2 ^ 64
      → count (counter_call c counts) key ≡ occurrences (recording_call c rs) key % 2 ^ 64
  unfolding counter_call recording_call push_binary push_compare
  call-agrees (quantum_binary _ _ _ _) rs counts key h e = record-agrees _ rs counts key e
  call-agrees (quantum_not _ _) rs counts key h e = record-agrees _ rs counts key e
  call-agrees (quantum_compare _ _ _ _ _) rs counts key h e = record-agrees _ rs counts key e
  call-agrees (theta_add _ _ _) rs counts key h e = record-agrees _ rs counts key e
  call-agrees (phi_add _ _ _) rs counts key h e = record-agrees _ rs counts key e
  call-agrees (prepare _ _) rs counts key h e = record-agrees _ rs counts key e
  call-agrees qram_read rs counts key h e =
      ground (arith, count-bump "qram_read" counts key, eq_iff "qram_read" key, e, h)
  call-agrees qrom_read rs counts key h e = record-agrees _ rs counts key e
  call-agrees qreg_read rs counts key h e = record-agrees _ rs counts key e

  all-agree :
      (cs : List (SinkCall Double)) (rs : List (Record Double)) (counts : Counts) (key : String)
      → key ≢ "qram_read"
      → count counts key ≡ occurrences rs key % 2 ^ 64
      → count (counter_all cs counts) key ≡ occurrences (recording_all cs rs) key % 2 ^ 64
  unfolding counter_all recording_all
  all-agree [] rs counts key h e = e
  all-agree (c ∷ cs) rs counts key h e =
      all-agree cs (recording_call c rs) (counter_call c counts) key h
        (call-agrees c rs counts key h e)

  -- After the same calls, from fresh sinks, the counter sink has for every operation but
  -- `qram_read` the number of records that the recording sink has of it, modulo 2 ^ 64.
  pub sinks-agree :
      (cs : List (SinkCall Double)) (key : String)
      → key ≢ "qram_read"
      → count (counter_all cs []) key ≡ occurrences (recording_all cs []) key % 2 ^ 64
  unfolding count occurrences
  sinks-agree cs key h = all-agree cs [] [] key h refl
