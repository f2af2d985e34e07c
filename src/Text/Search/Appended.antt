-- ===== src/Text/Search/Appended.antt =====
-- Where a byte stands that is put behind a text that lacks it.
use prostometrics_agent.Base.{
  ℕ, suc, ◌+◌, ◌≡◌, refl, ap, ◌∙◌, arith, some, [], ◌∷◌, ◌++◌, List, All, append-nil, append_assoc,
  sym, Bytes, Lacks, length, drop, take-append_full,
}
use prostometrics_agent.Text.Search.{split, split_from, join, cut, index_byte, index_where}

pub index_byte-append :
    (xs ys : Bytes) (b : ℕ) → Lacks b xs → index_byte (xs ++ b ∷ ys) b ≡ some (length xs)
unfolding index_byte index_where
index_byte-append [] ys b h = ground arith
index_byte-append (x ∷ xs) ys b (hx, h) = ground (arith, hx, index_byte-append xs ys b h)

zero_add : (a : ℕ) → 0 + a ≡ a
zero_add a = omega arith

suc_add : (a b : ℕ) → suc a + b ≡ suc (a + b)
suc_add a b = omega arith

pub drop-append_more : (xs ys : Bytes) (n : ℕ) → drop (length xs + n) (xs ++ ys) ≡ drop n ys
drop-append_more [] ys n = ap (λ k. drop k ys) (zero_add n)
drop-append_more (x ∷ xs) ys n =
    ap (λ k. drop k (x ∷ (xs ++ ys))) (suc_add (length xs) n) ∙ drop-append_more xs ys n

pub cut-append : (xs ys : Bytes) (b : ℕ) → Lacks b xs → cut (xs ++ b ∷ ys) b ≡ some (xs, ys)
unfolding cut
cut-append xs ys b h =
    rw
      (
        index_byte-append xs ys b h,
        take-append_full xs (b ∷ ys) (length xs) refl,
        drop-append_more xs (b ∷ ys) 1,
      )
      refl

pub split_from-append :
    (b : ℕ) (cur xs ys : Bytes)
    → Lacks b xs
    → split_from b cur (xs ++ b ∷ ys) ≡ (cur ++ xs) ∷ split_from b [] ys
unfolding split_from
split_from-append b cur [] ys h = ground (arith, append-nil cur)
split_from-append b cur (c ∷ xs) ys (h, hs) =
    ground (arith, split_from-append b (cur ++ c ∷ []) xs ys hs, append_assoc cur (c ∷ []) xs)

split_from-last : (b : ℕ) (cur xs : Bytes) → Lacks b xs → split_from b cur xs ≡ (cur ++ xs) ∷ []
unfolding split_from
split_from-last b cur [] h = ap (λ x. x ∷ []) (sym (append-nil cur))
split_from-last b cur (c ∷ xs) (h, hs) =
    ground (arith, split_from-last b (cur ++ c ∷ []) xs hs, append_assoc cur (c ∷ []) xs)

-- Lines that lack the byte are read back from their joined text.
pub split-join :
    (b : ℕ) (p : Bytes) (ps : List Bytes)
    → All (Lacks b) (p ∷ ps)
    → split (join (p ∷ ps) b) b ≡ p ∷ ps
unfolding split join
split-join b p [] h = split_from-last b [] p h.0
split-join b p (q ∷ ps) h =
    split_from-append b [] p (join (q ∷ ps) b) h.0 ∙ ap (◌∷◌ p) (split-join b q ps h.1)
