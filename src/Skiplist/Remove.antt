-- ===== src/Skiplist/Remove.antt =====
-- A skip list of internal/ds/skiplist.go without one of its nodes.
use monster_db.Prelude.{
  ℕ, zero, suc, ◌≡◌, refl, ap, subst, ◌∙◌, false, Bool-cases, inl, inr, List, [], ◌∷◌, map, drop,
  ◌==◌, ==_iff, if◌then◌else◌,
}
use monster_db.Skiplist.{SkiplistNode, Chain}
use monster_db.Skiplist.Walk.{In, AllOther, IsUnique, Nested, AllChains, In-AllOther}
use monster_db.Skiplist.Linked.{IsSorted, AllBelow, IsBlank}

-- The chain without a node.
abbrev pub remove : ℕ → Chain → Chain
remove i [] = []
remove i (n ∷ c) = if n.id == i then c else n ∷ remove i c

pub remove_absent :
    (i : ℕ) (c : Chain) → ((m : SkiplistNode) → In m c → (m.id == i) ≡ false) → remove i c ≡ c
remove_absent i [] h = refl
remove_absent i (n ∷ c) h =
    rw (h n (inl refl)) (ap (λ x. n ∷ x) (remove_absent i c (λ m j. h m (inr j))))

pub remove-In : (i : ℕ) (m : SkiplistNode) (c : Chain) → In m (remove i c) → In m c
remove-In i m [] h = h
remove-In i m (k ∷ c) h = elim (Bool-cases (k.id == i)) [
  | inl e ↦ inr (rw e at h)
  | inr e ↦ elim (rw e at h) [ inl f ↦ inl f | inr g ↦ inr (remove-In i m c g) ]
]

pub In-remove :
    (i : ℕ) (m : SkiplistNode) (c : Chain) → In m c → (m.id == i) ≡ false → In m (remove i c)
In-remove i m [] h f = h
In-remove i m (k ∷ c) h f = elim (Bool-cases (k.id == i)) [
  | inl e ↦ elim h [ inl g ↦ absurd (cc (e, f, ap (λ x. x.id == i) g)) | inr j ↦ rw e j ]
  | inr e ↦ elim h [ inl g ↦ rw e (inl g) | inr j ↦ rw e (inr (In-remove i m c j f)) ]
]

remove-AllOther : (i j : ℕ) (c : Chain) → AllOther j c → AllOther j (remove i c)
remove-AllOther i j [] o = tt
remove-AllOther i j (k ∷ c) o = elim (Bool-cases (k.id == i)) [
  | inl e ↦ rw e (o.1)
  | inr e ↦ rw e (o.0, remove-AllOther i j c o.1)
]

pub remove-IsUnique : (i : ℕ) (c : Chain) → IsUnique c → IsUnique (remove i c)
remove-IsUnique i [] u = tt
remove-IsUnique i (k ∷ c) u = elim (Bool-cases (k.id == i)) [
  | inl e ↦ rw e (u.1)
  | inr e ↦ rw e (remove-AllOther i k.id c u.0, remove-IsUnique i c u.1)
]

-- What was taken out is gone.
pub gone :
    (i : ℕ) (m : SkiplistNode) (c : Chain) → IsUnique c → In m (remove i c) → (m.id == i) ≡ false
gone i m [] u h = absurd h
gone i m (k ∷ c) u h = elim (Bool-cases (k.id == i)) [
  | inl e ↦
      subst (λ x. (m.id == x) ≡ false) ((==_iff k.id i).0 e) (In-AllOther k.id m c u.0 (rw e at h))
  | inr e ↦ elim (rw e at h) [ inl f ↦ ap (λ x. x.id == i) f ∙ e | inr g ↦ gone i m c u.1 g ]
]

pub remove-IsSorted : (i : ℕ) (c : Chain) → IsSorted c → IsSorted (remove i c)
remove-IsSorted i [] s = tt
remove-IsSorted i (k ∷ c) s = elim (Bool-cases (k.id == i)) [
  | inl e ↦ rw e (s.1)
  | inr e ↦ rw e (λ m j. s.0 m (remove-In i m c j), remove-IsSorted i c s.1)
]

pub remove-AllBelow : (i b : ℕ) (c : Chain) → AllBelow b c → AllBelow b (remove i c)
remove-AllBelow i b [] h = tt
remove-AllBelow i b (k ∷ c) h = elim (Bool-cases (k.id == i)) [
  | inl e ↦ rw e (h.1)
  | inr e ↦ rw e (h.0, remove-AllBelow i b c h.1)
]

pub AllChains-remove {ℓ} :
    (P : Chain → Type ℓ) (i : ℕ) (cs : List Chain)
    → ((c : Chain) → P c → P (remove i c))
    → AllChains P cs
    → AllChains P (map (remove i) cs)
AllChains-remove P i [] f h = tt
AllChains-remove P i (c ∷ cs) f h = (f c h.0, AllChains-remove P i cs f h.1)

pub remove-Nested :
    (i : ℕ) (cs : List Chain) → AllChains IsUnique cs → Nested cs → Nested (map (remove i) cs)
remove-Nested i [] u n = tt
remove-Nested i (c ∷ []) u n = tt
remove-Nested i (c ∷ d ∷ cs) u n = (
  λ m h. In-remove i m c (n.0 m (remove-In i m d h)) (gone i m d u.1.0 h),
  remove-Nested i (d ∷ cs) u.1 n.1,
)

pub drop-remove :
    (i a : ℕ) (cs : List Chain) → drop a (map (remove i) cs) ≡ map (remove i) (drop a cs)
drop-remove i zero cs = refl
drop-remove i (suc a) [] = refl
drop-remove i (suc a) (c ∷ cs) = drop-remove i a cs

pub remove-IsBlank : (i : ℕ) (c : Chain) → IsBlank c → IsBlank (remove i c)
remove-IsBlank i c e = ap (remove i) e
