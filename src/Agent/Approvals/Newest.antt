-- ===== src/Agent/Approvals/Newest.antt =====
-- The order in which the approval files are read: newest name first.
use Prim.Native.Nat.{zero, suc, Ordering, compare as compare_ℕ}
use Prim.Native.Nat.compare as compare_ℕ
use Prim.Native.Char.{code}
use Prim.Native.String.{compare, then as first_of}
use Prim.Native.String.compare
use mathlib.Core.List.{Perm}
use mathlib.Core.List.Perm
use opcua_implementaion.Prelude.{
  ℕ, String, Bool, any, true, false, List, [], ◌∷◌, ◌≡◌, refl, Bool-cases, inl, inr, arith,
}
use opcua_implementaion.Agent.Approvals.Records.{RecordFile, name_lt, place_file, newest_first}

reversed : Ordering → Ordering
reversed Ordering.lt = Ordering.gt
reversed Ordering.eq = Ordering.eq
reversed Ordering.gt = Ordering.lt

compare_ℕ-reversed : (m n : ℕ) → compare_ℕ n m ≡ reversed (compare_ℕ m n)
unfolding reversed
compare_ℕ-reversed zero zero = rw compare_ℕ.zero-zero refl
compare_ℕ-reversed zero (suc n) = rw (compare_ℕ.zero-suc n, compare_ℕ.suc-zero n) refl
compare_ℕ-reversed (suc m) zero = rw (compare_ℕ.zero-suc m, compare_ℕ.suc-zero m) refl
compare_ℕ-reversed (suc m) (suc n) =
    rw (compare_ℕ.suc-suc m n, compare_ℕ.suc-suc n m) (compare_ℕ-reversed m n)

then-reversed : (o p : Ordering) → first_of (reversed o) (reversed p) ≡ reversed (first_of o p)
unfolding reversed
then-reversed Ordering.lt p = refl
then-reversed Ordering.eq p = refl
then-reversed Ordering.gt p = refl

compare-reversed : (s t : String) → compare t s ≡ reversed (compare s t)
unfolding reversed
compare-reversed String.[] String.[] = rw compare.nil-nil refl
compare-reversed String.[] (String.◌∷◌ d t) = rw (compare.nil-cons d t, compare.cons-nil d t) refl
compare-reversed (String.◌∷◌ c s) String.[] = rw (compare.nil-cons c s, compare.cons-nil c s) refl
compare-reversed (String.◌∷◌ c s) (String.◌∷◌ d t) =
    rw
      (
        compare.cons-cons c d s t,
        compare.cons-cons d c t s,
        compare_ℕ-reversed (code c) (code d),
        compare-reversed s t,
      )
      (then-reversed (compare_ℕ (code c) (code d)) (compare s t))

-- A name that comes before another does not come after it.
name_lt-reversed : (s t : String) → name_lt s t ≡ true → name_lt t s ≡ false
unfolding reversed
name_lt-reversed s t h = ground (arith, compare-reversed s t)

-- The first of a list, if there is one, has no later name than x.
abbrev HeadLe : String → List RecordFile → Type 0
HeadLe x [] = Unit
HeadLe x (f ∷ fs) = name_lt x f.0 ≡ false

-- No file comes right before one with a later name.
abbrev pub Descending : List RecordFile → Type 0
Descending [] = Unit
Descending (f ∷ fs) = HeadLe f.0 fs × Descending fs

HeadLe-place_file :
    (x : String) (f : RecordFile) (gs : List RecordFile)
    → name_lt x f.0 ≡ false
    → HeadLe x gs
    → HeadLe x (place_file f gs)
unfolding place_file
HeadLe-place_file x f [] low h = low
HeadLe-place_file x f (g ∷ gs) low h = elim (Bool-cases (name_lt f.0 g.0)) [
  | inl later ↦ rw later h
  | inr first ↦ rw first low
]

place_file-Descending :
    (f : RecordFile) (gs : List RecordFile) → Descending gs → Descending (place_file f gs)
unfolding place_file
place_file-Descending f [] h = (tt, tt)
place_file-Descending f (g ∷ gs) h = elim (Bool-cases (name_lt f.0 g.0)) [
  | inl later ↦ rw later (
    HeadLe-place_file g.0 f gs (name_lt-reversed f.0 g.0 later) h.0,
    place_file-Descending f gs h.1,
  )
  | inr first ↦ rw first (first, h)
]

pub newest_first-Descending : (files : List RecordFile) → Descending (newest_first files)
unfolding newest_first
newest_first-Descending [] = tt
newest_first-Descending (f ∷ fs) =
    place_file-Descending f (newest_first fs) (newest_first-Descending fs)

place_file-Perm : (f : RecordFile) (gs : List RecordFile) → Perm (place_file f gs) (f ∷ gs)
unfolding place_file
place_file-Perm f [] = Perm.refl (f ∷ [])
place_file-Perm f (g ∷ gs) = elim (Bool-cases (name_lt f.0 g.0)) [
  | inl later ↦ rw later (Perm.trans (Perm.cons g (place_file-Perm f gs)) (Perm.swap f g gs))
  | inr first ↦ rw first (Perm.refl (f ∷ g ∷ gs))
]

-- The sorted files are the files.
pub newest_first-Perm : (files : List RecordFile) → Perm (newest_first files) files
unfolding newest_first
newest_first-Perm [] = Perm.nil
newest_first-Perm (f ∷ fs) =
    Perm.trans (place_file-Perm f (newest_first fs)) (Perm.cons f (newest_first-Perm fs))

any-place_file :
    (p : RecordFile → Bool) (f : RecordFile) (gs : List RecordFile)
    → any p (place_file f gs) ≡ any p (f ∷ gs)
unfolding place_file
any-place_file p f [] = refl
any-place_file p f (g ∷ gs) = ground (arith, any-place_file p f gs)

pub any-newest_first :
    (p : RecordFile → Bool) (files : List RecordFile) → any p (newest_first files) ≡ any p files
unfolding newest_first
any-newest_first p [] = refl
any-newest_first p (f ∷ fs) =
    ground (arith, any-place_file p f (newest_first fs), any-newest_first p fs)
