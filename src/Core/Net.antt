-- ===== src/Core/Net.antt =====
-- internal/collectors/core/net.go.
use prostometrics_agent.Base.{
  ℕ, Bool, true, false, ◌||◌, List, [], ◌∷◌, ◌++◌, none, Bytes, codes, if◌then◌else◌, ◌===◌, leb,
  get_or, length, drop, ◌≡◌, refl, ===_iff, arith, Bool-cases, inl, inr,
}
use prostometrics_agent.Base.Maps.{lookup, insert, lookup-insert}
use prostometrics_agent.Core.Counters.{parse_uint}
use prostometrics_agent.Metrics.{whole, kilo, label, Emission, total}
use prostometrics_agent.Text.Search.{has_prefix, split}
use prostometrics_agent.Text.Space.{trim_space, fields}

pub record NetCounters : Type 0 where
  pub rx_bytes : ℕ
  pub rx_packets : ℕ
  pub rx_errs : ℕ
  pub rx_drop : ℕ
  pub tx_bytes : ℕ
  pub tx_packets : ℕ
  pub tx_errs : ℕ
  pub tx_drop : ℕ

unfoldable pub skip_net_interface : Bytes → Bool
skip_net_interface name =
    (name === codes "lo")
    || has_prefix name (codes "veth")
    || (name === codes "docker0")
    || has_prefix name (codes "br-")
    || has_prefix name (codes "cali")
    || has_prefix name (codes "flannel.")
    || has_prefix name (codes "tunl")

abbrev number_at : List Bytes → ℕ → ℕ
number_at fs i = parse_uint (get_or fs i [])

abbrev counters_of : List Bytes → NetCounters
counters_of fs = record {
  rx_bytes = number_at fs 0;
  rx_packets = number_at fs 1;
  rx_errs = number_at fs 2;
  rx_drop = number_at fs 3;
  tx_bytes = number_at fs 8;
  tx_packets = number_at fs 9;
  tx_errs = number_at fs 10;
  tx_drop = number_at fs 11;
}

abbrev net_entry : Bytes → List Bytes → List (Bytes × NetCounters) → List (Bytes × NetCounters)
net_entry iface fs stats =
    if (iface === []) || skip_net_interface iface
    then stats
    else if leb 16 (length fs)
    then insert iface (counters_of fs) stats
    else stats

abbrev net_parts : List Bytes → List (Bytes × NetCounters) → List (Bytes × NetCounters)
net_parts (p ∷ q ∷ []) stats = net_entry (trim_space p) (fields (trim_space q)) stats
net_parts ps stats = stats

abbrev net_line : Bytes → List (Bytes × NetCounters) → List (Bytes × NetCounters)
net_line line stats = if line === [] then stats else net_parts (split line b':') stats

unfoldable pub read_net_lines : List Bytes → List (Bytes × NetCounters) → List (Bytes × NetCounters)
read_net_lines [] stats = stats
read_net_lines (line ∷ lines) stats = read_net_lines lines (net_line (trim_space line) stats)

-- The first two lines are titles.
unfoldable pub read_net_proc : List Bytes → List (Bytes × NetCounters)
read_net_proc lines = read_net_lines (drop 2 lines) []

abbrev counted : Bytes → NetCounters → List Emission
counted iface cur =
    let i = label (codes "iface") iface in
    let rx = label (codes "dir") (codes "rx") in
    let tx = label (codes "dir") (codes "tx") in
    total (codes "host.net.kb") (kilo cur.rx_bytes) (i ∷ rx ∷ [])
    ∷ total (codes "host.net.packets") (whole cur.rx_packets) (i ∷ rx ∷ [])
    ∷ total (codes "host.net.errors") (whole cur.rx_errs) (i ∷ rx ∷ [])
    ∷ total (codes "host.net.dropped") (whole cur.rx_drop) (i ∷ rx ∷ [])
    ∷ total (codes "host.net.kb") (kilo cur.tx_bytes) (i ∷ tx ∷ [])
    ∷ total (codes "host.net.packets") (whole cur.tx_packets) (i ∷ tx ∷ [])
    ∷ total (codes "host.net.errors") (whole cur.tx_errs) (i ∷ tx ∷ [])
    ∷ total (codes "host.net.dropped") (whole cur.tx_drop) (i ∷ tx ∷ [])
    ∷ []

-- `Collect`, over a snapshot.
unfoldable pub collect : List (Bytes × NetCounters) → List Emission
collect [] = []
collect ((iface, cur) ∷ snapshot) = counted iface cur ++ collect snapshot

-- An interface that is passed over has no entry.
abbrev NoSkipped : List (Bytes × NetCounters) → Type 0
NoSkipped m = (iface : Bytes) → skip_net_interface iface ≡ true → lookup iface m ≡ none

insert-NoSkipped :
    (iface : Bytes) (c : NetCounters) (m : List (Bytes × NetCounters))
    → skip_net_interface iface ≡ false
    → NoSkipped m
    → NoSkipped (insert iface c m)
insert-NoSkipped iface c m s h other o =
    ground (arith, h other o, lookup-insert iface other c m, ===_iff iface other)

net_entry-NoSkipped :
    (iface : Bytes) (fs : List Bytes) (m : List (Bytes × NetCounters))
    → NoSkipped m
    → NoSkipped (net_entry iface fs m)
net_entry-NoSkipped iface fs m h = elim (Bool-cases (iface === [])) [
  | inl e ↦ rw e h
  | inr e ↦ elim (Bool-cases (skip_net_interface iface)) [
    | inl s ↦ rw (e, s) h
    | inr s ↦ elim (Bool-cases (leb 16 (length fs))) [
      | inl l ↦ rw (e, s, l) (insert-NoSkipped iface (counters_of fs) m s h)
      | inr l ↦ rw (e, s, l) h
    ]
  ]
]

net_parts-NoSkipped :
    (ps : List Bytes) (m : List (Bytes × NetCounters)) → NoSkipped m → NoSkipped (net_parts ps m)
net_parts-NoSkipped [] m h = h
net_parts-NoSkipped (p ∷ []) m h = h
net_parts-NoSkipped (p ∷ q ∷ []) m h =
    net_entry-NoSkipped (trim_space p) (fields (trim_space q)) m h
net_parts-NoSkipped (p ∷ q ∷ r ∷ ps) m h = h

read_net_lines-NoSkipped :
    (lines : List Bytes) (m : List (Bytes × NetCounters))
    → NoSkipped m
    → NoSkipped (read_net_lines lines m)
unfolding read_net_lines
read_net_lines-NoSkipped [] m h = h
read_net_lines-NoSkipped (line ∷ lines) m h = elim (Bool-cases (trim_space line === [])) [
  | inl e ↦ rw (e, read_net_lines) (read_net_lines-NoSkipped lines m h)
  | inr e ↦
      rw (e, read_net_lines)
        (read_net_lines-NoSkipped lines (net_parts (split (trim_space line) b':') m)
          (net_parts-NoSkipped (split (trim_space line) b':') m h))
]

-- Whatever the file holds, an interface that is passed over (the loopback, the interfaces of
-- containers and their bridges) has no counters.
pub read_net_proc_lem :
    (lines : List Bytes) (iface : Bytes)
    → skip_net_interface iface ≡ true
    → lookup iface (read_net_proc lines) ≡ none
unfolding read_net_proc lookup
read_net_proc_lem lines iface h = read_net_lines-NoSkipped (drop 2 lines) [] (λ i s. refl) iface h
