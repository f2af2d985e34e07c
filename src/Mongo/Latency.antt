-- ===== src/Mongo/Latency.antt =====
-- How the average latency of a round follows from two readings.
use prostometrics_agent.Base.{
  ℕ, ◌+◌, ◌-◌, ◌<◌, ◌^◌, ◌&&◌, List, [], ◌∷◌, Bytes, codes, ◌≡◌, arith, All, if◌then◌else◌, ltb,
}
use prostometrics_agent.Base.Integers.{pos}
use prostometrics_agent.Metrics.{millis, Label, Emission, SendsFinite, value}
use prostometrics_agent.Mongo.{typed, diff_counter, emit_latency}

abbrev AreFinite : List Emission → Type 0
AreFinite = All SendsFinite

diff_counter-pos : (a b : ℕ) → b < 2 ^ 63 → diff_counter (pos a) (pos b) ≡ pos (b - a)
unfolding diff_counter
diff_counter-pos a b h = ground arith

grew : (a b : ℕ) → ltb 0 (b - a + 0) ≡ ltb a b
grew a b = ground arith

-- Of counters that fit into an int64, the latency is sent where both the operations and the time
-- spent on them grew, with the growths; a counter that fell, as after a restart, sends nothing.
pub emit_latency_lem :
    (inst : Label) (typ : Bytes) (l o l' o' : ℕ)
    → l' < 2 ^ 63
    → o' < 2 ^ 63
    → emit_latency inst typ
        (record { latency = pos l; ops = pos o })
        (record { latency = pos l'; ops = pos o' })
      ≡ (if ltb o o' && ltb l l'
          then value (codes "mongo.op_latency_ms") (millis (l' - l) (o' - o)) (typed inst typ) ∷ []
          else [])
unfolding emit_latency
emit_latency_lem inst typ l o l' o' h k =
    rw (diff_counter-pos o o' k, diff_counter-pos l l' h, grew o o', grew l l')
