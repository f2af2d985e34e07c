-- ===== src/Core/Cpu/Shares.antt =====
-- The shares of the modes of a processor add up to the whole.
use prostometrics_agent.Base.{
  ℕ, ◌+◌, ◌-◌, ◌<◌, ◌^◌, List, [], ◌∷◌, ◌++◌, ◌≡◌, refl, ◌∙◌, arith, some, Bytes, codes, All,
  All-append, ◌==◌, ◌===◌, Bool-cases, inl, inr, if◌then◌else◌,
}
use prostometrics_agent.Core.Cpu.{CpuTimes, CpuDeltas, deltas, delta_total, emit, emit_all, shares}
use prostometrics_agent.Core.Counters.{diff_uint}
use prostometrics_agent.Metrics.{
  Reading, whole, kilo, ratio, percent, share, seconds, integer, millis, count, Emission, value,
  value_sparse, total, success, Label, label, written,
}

-- What the modes of a processor gained, all together.
abbrev pub gained : CpuTimes → CpuTimes → ℕ
gained prev cur =
    (cur.user - prev.user)
    + (cur.nice - prev.nice)
    + (cur.system - prev.system)
    + (cur.idle - prev.idle)
    + (cur.iowait - prev.iowait)
    + (cur.irq - prev.irq)
    + (cur.softirq - prev.softirq)
    + (cur.steal - prev.steal)

abbrev pub part_of : Reading → ℕ
part_of (percent a b k) = a
part_of (whole n) = 0
part_of (kilo n) = 0
part_of (ratio a b) = 0
part_of (share a b) = 0
part_of (seconds n) = 0
part_of (integer n) = 0
part_of (millis a b) = 0

abbrev pub mode_of : List Label → Bytes
mode_of [] = []
mode_of (written text ∷ labels) = mode_of labels
mode_of (label name v ∷ labels) = if name === codes "mode" then v else mode_of labels

abbrev pub part : Bytes → Emission → ℕ
part mode (value metric r labels) = if mode_of labels === mode then part_of r else 0
part mode (value_sparse metric r labels) = 0
part mode (total metric r labels) = 0
part mode (success metric ok labels) = 0
part mode (count metric n) = 0

-- The sum of the numerators of the percentages sent of a mode.
abbrev pub parts : Bytes → List Emission → ℕ
parts mode [] = 0
parts mode (e ∷ es) = part mode e + parts mode es

-- A percentage of the whole `n`, and of no empty part.
abbrev pub IsPartOf : ℕ → Emission → Type 0
IsPartOf n (value metric r labels) = (r ≡ percent (part_of r) n 1) × (0 < part_of r)
IsPartOf n (value_sparse metric r labels) = ⊥
IsPartOf n (total metric r labels) = ⊥
IsPartOf n (success metric ok labels) = ⊥
IsPartOf n (count metric k) = ⊥

parts-append :
    (mode : Bytes) (xs ys : List Emission) → parts mode (xs ++ ys) ≡ parts mode xs + parts mode ys
parts-append mode [] ys = omega arith
parts-append mode (x ∷ xs) ys = omega (arith, parts-append mode xs ys)

emit-parts :
    (name mode other : Bytes) (n d : ℕ)
    → parts other (emit name n mode d) ≡ (if mode === other then d else 0)
unfolding ◌===◌
emit-parts name mode other n d = elim (Bool-cases (d == 0)) [
  | inl e ↦ rw e (ground arith)
  | inr e ↦ rw e (ground arith)
]

emit-IsPartOf : (name mode : Bytes) (n d : ℕ) → All (IsPartOf n) (emit name n mode d)
emit-IsPartOf name mode n d = elim (Bool-cases (d == 0)) [
  | inl e ↦ rw e tt
  | inr e ↦ rw e ((refl, ground arith), tt)
]

-- What is sent of each mode, by its name.
of_modes : Bytes → CpuDeltas → ℕ
of_modes mode d =
    (if codes "user" === mode then d.user else 0)
    + (if codes "nice" === mode then d.nice else 0)
    + (if codes "system" === mode then d.system else 0)
    + (if codes "idle" === mode then d.idle else 0)
    + (if codes "iowait" === mode then d.iowait else 0)
    + (if codes "irq" === mode then d.irq else 0)
    + (if codes "softirq" === mode then d.softirq else 0)
    + (if codes "steal" === mode then d.steal else 0)

emit_all-parts :
    (name mode : Bytes) (n : ℕ) (d : CpuDeltas) → parts mode (emit_all name n d) ≡ of_modes mode d
unfolding of_modes ◌===◌
emit_all-parts name mode n d =
    rw
      (
        parts-append mode
            (emit name n (codes "user") d.user
              ++ emit name n (codes "nice") d.nice
              ++ emit name n (codes "system") d.system
              ++ emit name n (codes "idle") d.idle
              ++ emit name n (codes "iowait") d.iowait
              ++ emit name n (codes "irq") d.irq
              ++ emit name n (codes "softirq") d.softirq)
            (emit name n (codes "steal") d.steal),
        parts-append mode
            (emit name n (codes "user") d.user
              ++ emit name n (codes "nice") d.nice
              ++ emit name n (codes "system") d.system
              ++ emit name n (codes "idle") d.idle
              ++ emit name n (codes "iowait") d.iowait
              ++ emit name n (codes "irq") d.irq)
            (emit name n (codes "softirq") d.softirq),
        parts-append mode
            (emit name n (codes "user") d.user
              ++ emit name n (codes "nice") d.nice
              ++ emit name n (codes "system") d.system
              ++ emit name n (codes "idle") d.idle
              ++ emit name n (codes "iowait") d.iowait)
            (emit name n (codes "irq") d.irq),
        parts-append mode
            (emit name n (codes "user") d.user
              ++ emit name n (codes "nice") d.nice
              ++ emit name n (codes "system") d.system
              ++ emit name n (codes "idle") d.idle)
            (emit name n (codes "iowait") d.iowait),
        parts-append mode
            (emit name n (codes "user") d.user
              ++ emit name n (codes "nice") d.nice
              ++ emit name n (codes "system") d.system)
            (emit name n (codes "idle") d.idle),
        parts-append mode (emit name n (codes "user") d.user ++ emit name n (codes "nice") d.nice)
            (emit name n (codes "system") d.system),
        parts-append mode (emit name n (codes "user") d.user) (emit name n (codes "nice") d.nice),
        emit-parts name (codes "user") mode n d.user,
        emit-parts name (codes "nice") mode n d.nice,
        emit-parts name (codes "system") mode n d.system,
        emit-parts name (codes "idle") mode n d.idle,
        emit-parts name (codes "iowait") mode n d.iowait,
        emit-parts name (codes "irq") mode n d.irq,
        emit-parts name (codes "softirq") mode n d.softirq,
        emit-parts name (codes "steal") mode n d.steal,
      )
      refl

emit_all-IsPartOf : (name : Bytes) (n : ℕ) (d : CpuDeltas) → All (IsPartOf n) (emit_all name n d)
emit_all-IsPartOf name n d =
    All-append (IsPartOf n)
      (emit name n (codes "user") d.user
        ++ emit name n (codes "nice") d.nice
        ++ emit name n (codes "system") d.system
        ++ emit name n (codes "idle") d.idle
        ++ emit name n (codes "iowait") d.iowait
        ++ emit name n (codes "irq") d.irq
        ++ emit name n (codes "softirq") d.softirq)
      _
      (All-append (IsPartOf n)
        (emit name n (codes "user") d.user
          ++ emit name n (codes "nice") d.nice
          ++ emit name n (codes "system") d.system
          ++ emit name n (codes "idle") d.idle
          ++ emit name n (codes "iowait") d.iowait
          ++ emit name n (codes "irq") d.irq)
        _
        (All-append (IsPartOf n)
          (emit name n (codes "user") d.user
            ++ emit name n (codes "nice") d.nice
            ++ emit name n (codes "system") d.system
            ++ emit name n (codes "idle") d.idle
            ++ emit name n (codes "iowait") d.iowait)
          _
          (All-append (IsPartOf n)
            (emit name n (codes "user") d.user
              ++ emit name n (codes "nice") d.nice
              ++ emit name n (codes "system") d.system
              ++ emit name n (codes "idle") d.idle)
            _
            (All-append (IsPartOf n)
              (emit name n (codes "user") d.user
                ++ emit name n (codes "nice") d.nice
                ++ emit name n (codes "system") d.system)
              _
              (All-append (IsPartOf n)
                (emit name n (codes "user") d.user ++ emit name n (codes "nice") d.nice) _
                (All-append (IsPartOf n) (emit name n (codes "user") d.user) _
                  (emit-IsPartOf name (codes "user") n d.user)
                  (emit-IsPartOf name (codes "nice") n d.nice))
                (emit-IsPartOf name (codes "system") n d.system))
              (emit-IsPartOf name (codes "idle") n d.idle))
            (emit-IsPartOf name (codes "iowait") n d.iowait))
          (emit-IsPartOf name (codes "irq") n d.irq))
        (emit-IsPartOf name (codes "softirq") n d.softirq))
      (emit-IsPartOf name (codes "steal") n d.steal)

-- Each of the eight modes is sent with what it gained.
abbrev pub AreGains : CpuTimes → CpuTimes → List Emission → Type 0
AreGains prev cur sent =
    (parts (codes "user") sent ≡ cur.user - prev.user)
    × (parts (codes "nice") sent ≡ cur.nice - prev.nice)
    × (parts (codes "system") sent ≡ cur.system - prev.system)
    × (parts (codes "idle") sent ≡ cur.idle - prev.idle)
    × (parts (codes "iowait") sent ≡ cur.iowait - prev.iowait)
    × (parts (codes "irq") sent ≡ cur.irq - prev.irq)
    × (parts (codes "softirq") sent ≡ cur.softirq - prev.softirq)
    × (parts (codes "steal") sent ≡ cur.steal - prev.steal)

diff_uint-monus : (a b : ℕ) → diff_uint a b ≡ b - a
diff_uint-monus a b = ground arith

deltas-of_modes :
    (prev cur : CpuTimes) (sent : List Emission)
    → ((mode : Bytes) → parts mode sent ≡ of_modes mode (deltas prev cur))
    → AreGains prev cur sent
unfolding of_modes ◌===◌
deltas-of_modes prev cur sent h = (
  h (codes "user") ∙ omega (arith, diff_uint-monus prev.user cur.user),
  h (codes "nice") ∙ omega (arith, diff_uint-monus prev.nice cur.nice),
  h (codes "system") ∙ omega (arith, diff_uint-monus prev.system cur.system),
  h (codes "idle") ∙ omega (arith, diff_uint-monus prev.idle cur.idle),
  h (codes "iowait") ∙ omega (arith, diff_uint-monus prev.iowait cur.iowait),
  h (codes "irq") ∙ omega (arith, diff_uint-monus prev.irq cur.irq),
  h (codes "softirq") ∙ omega (arith, diff_uint-monus prev.softirq cur.softirq),
  h (codes "steal") ∙ omega (arith, diff_uint-monus prev.steal cur.steal),
)

delta_total-gained :
    (prev cur : CpuTimes)
    → gained prev cur < 2 ^ 64
    → delta_total (deltas prev cur) ≡ gained prev cur
delta_total-gained prev cur h =
    rw
      (
        diff_uint-monus prev.user cur.user,
        diff_uint-monus prev.nice cur.nice,
        diff_uint-monus prev.system cur.system,
        diff_uint-monus prev.idle cur.idle,
        diff_uint-monus prev.iowait cur.iowait,
        diff_uint-monus prev.irq cur.irq,
        diff_uint-monus prev.softirq cur.softirq,
        diff_uint-monus prev.steal cur.steal,
      )
      (omega arith)

nothing_gained : (prev cur : CpuTimes) → gained prev cur ≡ 0 → AreGains prev cur []
nothing_gained prev cur h = (
  omega arith,
  omega arith,
  omega arith,
  omega arith,
  omega arith,
  omega arith,
  omega arith,
  omega arith,
)

-- Where what the eight modes of a processor gained fits into 64 bits all together, each mode is sent
-- with what it gained, as a percentage of the gain of them all, and a mode that gained nothing is not
-- sent: no mode is counted twice or left out, in what is sent or in the whole.
pub shares_lem :
    (name : Bytes) (prev cur : CpuTimes)
    → gained prev cur < 2 ^ 64
    → AreGains prev cur (shares name (some prev) cur)
      × All (IsPartOf (gained prev cur)) (shares name (some prev) cur)
shares_lem name prev cur h =
    let d = deltas prev cur in
    rw (delta_total-gained prev cur h) (elim (Bool-cases (gained prev cur == 0)) [
      | inl e ↦ rw e (nothing_gained prev cur (ground arith), tt)
      | inr e ↦ rw e (
        deltas-of_modes prev cur (emit_all name (gained prev cur) d)
            (λ mode. emit_all-parts name mode (gained prev cur) d),
        emit_all-IsPartOf name (gained prev cur) d,
      )
    ])
