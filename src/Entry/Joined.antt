-- ===== src/Entry/Joined.antt =====
-- What holds of each of nine lists, and of all of them joined, as `main` joins the probes of a
-- configuration.
use prostometrics_agent.Base.{List, ◌++◌, All, All-append, All-append_left, All-append_right}
use prostometrics_agent.Entry.{Probe}

module _ (P : Probe → Type 0) where
  parts : (xs ys : List Probe) → All P (xs ++ ys) → All P xs × All P ys
  parts xs ys h = (All-append_left P xs ys h, All-append_right P xs ys h)

  pub nine_parts :
      (a b c d e f g h i : List Probe)
      → All P (a ++ b ++ c ++ d ++ e ++ f ++ g ++ h ++ i)
      → All P a × All P b × All P c × All P d × All P e × All P f × All P g × All P h × All P i
  nine_parts a b c d e f g h i all =
      let (s8, pi) = parts (a ++ b ++ c ++ d ++ e ++ f ++ g ++ h) i all in
      let (s7, ph) = parts (a ++ b ++ c ++ d ++ e ++ f ++ g) h s8 in
      let (s6, pg) = parts (a ++ b ++ c ++ d ++ e ++ f) g s7 in
      let (s5, pf) = parts (a ++ b ++ c ++ d ++ e) f s6 in
      let (s4, pe) = parts (a ++ b ++ c ++ d) e s5 in
      let (s3, pd) = parts (a ++ b ++ c) d s4 in
      let (s2, pc) = parts (a ++ b) c s3 in
      let (pa, pb) = parts a b s2 in (pa, pb, pc, pd, pe, pf, pg, ph, pi)

  pub nine_joined :
      (a b c d e f g h i : List Probe)
      → All P a × All P b × All P c × All P d × All P e × All P f × All P g × All P h × All P i
      → All P (a ++ b ++ c ++ d ++ e ++ f ++ g ++ h ++ i)
  nine_joined a b c d e f g h i (pa, pb, pc, pd, pe, pf, pg, ph, pi) =
      let s2 = All-append P a b pa pb in
      let s3 = All-append P _ c s2 pc in
      let s4 = All-append P _ d s3 pd in
      let s5 = All-append P _ e s4 pe in
      let s6 = All-append P _ f s5 pf in
      let s7 = All-append P _ g s6 pg in let s8 = All-append P _ h s7 ph in All-append P _ i s8 pi
