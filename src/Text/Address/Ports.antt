-- ===== src/Text/Address/Ports.antt =====
-- Addresses with and without a host and a port.
use prostometrics_agent.Base.{
  ℕ, [], ◌∷◌, none, some, Bytes, ◌≡◌, refl, arith, Lacks, ◌++◌, ◌≢◌, false, codes, length,
  All-append, take-append_full,
}
use prostometrics_agent.Text.Address.{plain, split_host, split_host_port}
use prostometrics_agent.Text.Search.{
  index_byte, index_where, last_index_byte, last_index_where, has_prefix,
}

pub index_byte-lacks : (s : Bytes) (b : ℕ) → Lacks b s → index_byte s b ≡ none
unfolding index_byte index_where
index_byte-lacks [] b h = refl
index_byte-lacks (c ∷ s) b (hc, h) = ground (arith, index_byte-lacks s b h)

last_index_byte-lacks : (s : Bytes) (b : ℕ) → Lacks b s → last_index_byte s b ≡ none
unfolding last_index_byte last_index_where
last_index_byte-lacks [] b h = refl
last_index_byte-lacks (c ∷ s) b (hc, h) = ground (arith, last_index_byte-lacks s b h)

last_colon : (port : Bytes) → Lacks b':' port → last_index_byte (b':' ∷ port) b':' ≡ some 0
unfolding last_index_byte last_index_where
last_colon port h = ground (arith, last_index_byte-lacks port b':' h)

pub split_host-port :
    (port : Bytes)
    → Lacks b':' port
    → Lacks b'[' port
    → Lacks b']' port
    → split_host (b':' ∷ port) ≡ some []
unfolding split_host split_host_port has_prefix
split_host-port port h k l = rw (
  last_colon port h,
  plain,
  index_byte-lacks [] b':' tt,
  index_byte-lacks (b':' ∷ port) b'[' (λ e. omega arith, k),
  index_byte-lacks (b':' ∷ port) b']' (λ e. omega arith, l),
)

-- An address without a colon has no port, which is an error.
pub split_host-lacks : (s : Bytes) → Lacks b':' s → split_host s ≡ none
unfolding split_host split_host_port
split_host-lacks s h = rw (last_index_byte-lacks s b':' h) refl

last_index_byte-append :
    (host port : Bytes)
    → Lacks b':' host
    → Lacks b':' port
    → last_index_byte (host ++ b':' ∷ port) b':' ≡ some (length host)
unfolding last_index_byte last_index_where
last_index_byte-append [] port h p = ground (arith, last_index_byte-lacks port b':' p)
last_index_byte-append (c ∷ host) port (hc, h) p =
    ground (arith, last_index_byte-append host port h p)

not_bracketed :
    (host port : Bytes) → Lacks b'[' host → has_prefix (host ++ b':' ∷ port) (codes "[") ≡ false
unfolding has_prefix
not_bracketed [] port h = ground arith
not_bracketed (c ∷ host) port (hc, h) = ground arith

-- The host of an address with a port, neither of which holds a colon or a bracket.
pub split_host-host :
    (host port : Bytes)
    → Lacks b':' host
    → Lacks b'[' host
    → Lacks b']' host
    → Lacks b':' port
    → Lacks b'[' port
    → Lacks b']' port
    → split_host (host ++ b':' ∷ port) ≡ some host
unfolding split_host split_host_port
split_host-host host port h k l h' k' l' = rw (
  last_index_byte-append host port h h',
  not_bracketed host port k,
  plain,
  take-append_full host (b':' ∷ port) _ refl,
  index_byte-lacks host b':' h,
  index_byte-lacks (host ++ b':' ∷ port) b'['
      (All-append (λ c. c ≢ b'[') host (b':' ∷ port) k (λ e. omega arith, k')),
  index_byte-lacks (host ++ b':' ∷ port) b']'
      (All-append (λ c. c ≢ b']') host (b':' ∷ port) l (λ e. omega arith, l')),
)
