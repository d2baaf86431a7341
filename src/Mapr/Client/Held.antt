-- ===== src/Mapr/Client/Held.antt =====
-- A message that arrives while another server's merge holds the global set.
use dtail.Base.{◌≡◌, refl, ◌==◌, Bool, true, false, List, Bytes, ℤ}
use dtail.Mapr.Float.{Float64}
use dtail.Mapr.Client.{message, Snapshot, Aggregate, aggregate_message, flush_current}

module _ (float : Float64) where
  abbrev pub held : Bool → Snapshot float → Snapshot float
  held b snapshot = record snapshot { is_held = b }

  -- A message that could not be merged at once, since another server's merge held the global set,
  -- is not lost: the Flush behind it leaves the client's set, the global set and the error as if the
  -- message had been merged at once. The session's generation is the aggregate's.
  pub flush-held :
      (snapshot : Snapshot float) (a : Aggregate float) (group_key : Bytes) (samples : ℤ)
      (fields : List (Bytes × Bytes))
      → (snapshot.generation == a.current_generation) ≡ true
      → flush_current float
          (held true snapshot)
          (aggregate_message float (held true snapshot) (message group_key samples fields) a).0
        ≡ aggregate_message float (held false snapshot) (message group_key samples fields) a
  unfolding aggregate_message flush_current
  flush-held snapshot a group_key samples fields same = rw same refl
