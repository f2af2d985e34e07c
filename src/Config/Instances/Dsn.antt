-- ===== src/Config/Instances/Dsn.antt =====
-- What a MySQL connection string is named by.
use prostometrics_agent.Base.{
  suc, ◌+◌, ◌-◌, true, ◌∷◌, ◌++◌, some, Bytes, ◌≡◌, ◌≢◌, arith, length, take, drop, ltb, lt→ltb,
  Lacks, length-append, take-append_full, append_assoc, All, ℕ, [], refl, ◌∙◌, false, none, ◌===◌,
  codes, All-append,
}
use prostometrics_agent.Config.Instances.{host_or_address, mysql_label_from_dsn}
use prostometrics_agent.Text.Address.{split_host}
use prostometrics_agent.Text.Search.{index_byte}
use prostometrics_agent.Text.Search.Appended.{index_byte-append, drop-append_more}
use prostometrics_agent.Text.Address.Ports.{split_host-lacks, split_host-host}
use prostometrics_agent.Text.Space.{is_ascii_space, trim_space}
use prostometrics_agent.Text.Space.Solid.{IsSolid, trim_space-All_solid}

close_at :
    (before address after : Bytes)
    → Lacks b')' before
    → Lacks b')' address
    → index_byte (before ++ b'(' ∷ (address ++ b')' ∷ after)) b')'
      ≡ some (length before + suc (length address))
close_at before address after k l = rw (← append_assoc before (b'(' ∷ address) (b')' ∷ after)) (
    rw (← length-append before (b'(' ∷ address)) (
      index_byte-append (before ++ b'(' ∷ address) after b')'
        (All-append (λ c. c ≢ b')') before (b'(' ∷ address) k (λ e. omega arith, l))))

between :
    (before address after : Bytes)
    → take
        (length before + suc (length address) - (length before + 1))
        (drop (length before + 1) (before ++ b'(' ∷ (address ++ b')' ∷ after)))
      ≡ address
between before address after =
    rw (drop-append_more before (b'(' ∷ (address ++ b')' ∷ after)) 1)
      (take-append_full address (b')' ∷ after) _ (omega arith))

mysql_label_from_dsn-between :
    (before address after : Bytes)
    → Lacks b'(' before
    → Lacks b')' before
    → Lacks b')' address
    → mysql_label_from_dsn (before ++ b'(' ∷ (address ++ b')' ∷ after))
      ≡ host_or_address (trim_space address) (split_host (trim_space address))
unfolding mysql_label_from_dsn
mysql_label_from_dsn-between before address after h k l =
    let opened : ltb (length before) (length before + suc (length address)) ≡ true =
      lt→ltb _ _ (omega arith) in
    rw (
      index_byte-append before (address ++ b')' ∷ after) b'(' h,
      close_at before address after k l,
      between before address after,
      opened,
    )

-- A byte of a host or a port: ASCII without white space, and neither a colon nor what closes or
-- brackets an address.
abbrev pub IsHostByte : ℕ → Type 0
IsHostByte c = IsSolid c × (c ≢ b':') × (c ≢ b'[') × (c ≢ b']') × (c ≢ b')')

hosts-IsSolid : (s : Bytes) → All IsHostByte s → All IsSolid s
hosts-IsSolid [] h = tt
hosts-IsSolid (c ∷ s) (h, hs) = (h.0, hosts-IsSolid s hs)

hosts-Lacks :
    (s : Bytes) → All IsHostByte s → Lacks b':' s × Lacks b'[' s × Lacks b']' s × Lacks b')' s
hosts-Lacks [] h = (tt, tt, tt, tt)
hosts-Lacks (c ∷ s) (h, hs) =
    let (colon, opening, closing, close) = hosts-Lacks s hs in
    ((h.1, colon), (h.2, opening), (h.3, closing), (h.4, close))

colon-IsSolid : IsSolid b':'
unfolding is_ascii_space
colon-IsSolid = (omega arith, refl)

address-solid :
    (host port : Bytes)
    → All IsHostByte host
    → All IsHostByte port
    → trim_space (host ++ b':' ∷ port) ≡ host ++ b':' ∷ port
address-solid host port h p = trim_space-All_solid (host ++ b':' ∷ port) (
    All-append IsSolid host (b':' ∷ port) (hosts-IsSolid host h)
      (colon-IsSolid, hosts-IsSolid port p))

not_blank : (host : Bytes) → host ≢ [] → (host === []) ≡ false
unfolding ◌===◌
not_blank [] h = absurd (h refl)
not_blank (c ∷ host) h = refl

no_label : host_or_address [] none ≡ codes "mysql"
unfolding ◌===◌
no_label = refl

no_address : trim_space [] ≡ []
no_address = trim_space-All_solid [] tt

split_host-empty : split_host [] ≡ none
split_host-empty = split_host-lacks [] tt

-- The label of a connection string is the host of what stands between its first opening parenthesis
-- and the closing one behind it: of a host with a port, of a host alone, and the text "mysql" where
-- nothing stands there. What stands before the opening one holds no parenthesis, the host is not
-- empty, and host and port are of ASCII without white space, colons, brackets and closing
-- parentheses. It does not matter whether these are the parentheses of the address or stand in the
-- password before it.
pub mysql_label_from_dsn_lem :
    (before host port after : Bytes)
    → Lacks b'(' before
    → Lacks b')' before
    → host ≢ []
    → All IsHostByte host
    → All IsHostByte port
    → (mysql_label_from_dsn (before ++ b'(' ∷ ((host ++ b':' ∷ port) ++ b')' ∷ after)) ≡ host)
      × (mysql_label_from_dsn (before ++ b'(' ∷ (host ++ b')' ∷ after)) ≡ host)
      × (mysql_label_from_dsn (before ++ b'(' ∷ b')' ∷ after) ≡ codes "mysql")
mysql_label_from_dsn_lem before host port after k l some_host h p =
    let (colon, opening, closing, close) = hosts-Lacks host h in
    let (colon', opening', closing', close') = hosts-Lacks port p in
    (
      mysql_label_from_dsn-between before (host ++ b':' ∷ port) after k l
            (All-append (λ c. c ≢ b')') host (b':' ∷ port) close (λ e. omega arith, close'))
          ∙ rw
              (
                address-solid host port h p,
                split_host-host host port colon opening closing colon' opening' closing',
                not_blank host some_host,
              )
              refl,
      mysql_label_from_dsn-between before host after k l close
          ∙ rw
              (
                trim_space-All_solid host (hosts-IsSolid host h),
                split_host-lacks host colon,
                not_blank host some_host,
              )
              refl,
      mysql_label_from_dsn-between before [] after k l tt
          ∙ rw (no_address, split_host-empty) (no_label),
    )
