-- ===== src/Db/Rows.antt =====
-- Laws of the row operations: which rows an UPDATE touches and how many it counts.
use claude_job_runner.Prelude.{
  ap, ◌+◌, ◌≤◌, ◌≡◌, refl, Bool, true, false, List, [], ◌∷◌, ◌++◌, arith, if◌then◌else◌, length,
  filter, find, All, Bool-cases, inl, inr,
}
use claude_job_runner.Db.{Message, update, count}

pub count-append :
    (p : Message → Bool) (xs ys : List Message) → count p (xs ++ ys) ≡ count p xs + count p ys
unfolding count
count-append p [] ys = omega arith
count-append p (x ∷ xs) ys = ground (arith, count-append p xs ys)

-- A narrower test counts fewer rows.
pub count_mono :
    (p q : Message → Bool)
    → ((m : Message) → p m ≡ true → q m ≡ true)
    → (xs : List Message) → count p xs ≤ count q xs
unfolding count
count_mono p q h [] = omega arith
count_mono p q h (x ∷ xs) = ground (arith, count_mono p q h xs, h x)

-- The same where the tests compare on these rows alone.
pub count_mono_All :
    (p q : Message → Bool) (xs : List Message)
    → All (λ m. p m ≡ true → q m ≡ true) xs
    → count p xs ≤ count q xs
unfolding count
count_mono_All p q [] h = omega arith
count_mono_All p q (x ∷ xs) (hx, h) = ground (arith, count_mono_All p q xs h)

-- If a narrower test counts as many rows, it holds wherever the wider one does.
pub count_tight :
    (p q : Message → Bool)
    → ((m : Message) → p m ≡ true → q m ≡ true)
    → (xs : List Message) → count q xs ≤ count p xs
    → All (λ m. q m ≡ true → p m ≡ true) xs
unfolding count
count_tight p q h [] le = tt
count_tight p q h (x ∷ xs) le = (
  ground (arith, count_mono p q h xs, h x),
  count_tight p q h xs (ground (arith, count_mono p q h xs, h x)),
)

pub count-filter : (p : Message → Bool) (xs : List Message) → length (filter p xs) ≡ count p xs
unfolding count
count-filter p [] = refl
count-filter p (x ∷ xs) = ground (arith, count-filter p xs)

-- An UPDATE that keeps a test's value keeps its count.
pub count-update :
    (q p : Message → Bool) (f : Message → Message)
    → ((m : Message) → q (f m) ≡ q m)
    → (xs : List Message) → count q (update p f xs) ≡ count q xs
unfolding count update
count-update q p f h [] = refl
count-update q p f h (x ∷ xs) = ground (arith, count-update q p f h xs, h x)

pub All-update {ℓ} :
    (P : Message → Type ℓ) (p : Message → Bool) (f : Message → Message)
    → ((m : Message) → P m → P (f m))
    → (xs : List Message) → All P xs
    → All P (update p f xs)
unfolding update
All-update P p f h [] a = a
All-update P p f h (x ∷ xs) (px, a) = elim (Bool-cases (p x)) [
  | inl e ↦ rw e (h x px, All-update P p f h xs a)
  | inr e ↦ rw e (px, All-update P p f h xs a)
]

pub count_none :
    (p : Message → Bool) (xs : List Message) → All (λ m. p m ≡ false) xs → count p xs ≡ 0
unfolding count
count_none p [] h = refl
count_none p (x ∷ xs) (h, hs) = ground (arith, count_none p xs hs)

pub none_of_count :
    (p : Message → Bool) (xs : List Message) → count p xs ≡ 0 → All (λ m. p m ≡ false) xs
unfolding count
none_of_count p [] h = tt
none_of_count p (x ∷ xs) h = (ground arith, none_of_count p xs (ground arith))

-- An UPDATE that counts no row changes nothing.
pub update_none :
    (p : Message → Bool) (f : Message → Message) (xs : List Message)
    → count p xs ≡ 0
    → update p f xs ≡ xs
unfolding count update
update_none p f [] h = refl
update_none p f (x ∷ xs) h = ground (arith, update_none p f xs)

pub update-append :
    (p : Message → Bool) (f : Message → Message) (xs ys : List Message)
    → update p f (xs ++ ys) ≡ update p f xs ++ update p f ys
unfolding update
update-append p f [] ys = refl
update-append p f (x ∷ xs) ys = ap (λ zs. (if p x then f x else x) ∷ zs) (update-append p f xs ys)

pub find-append :
    (p : Message → Bool) (xs ys : List Message) → count p xs ≡ 0 → find p (xs ++ ys) ≡ find p ys
unfolding count
find-append p [] ys h = refl
find-append p (x ∷ xs) ys h = ground (arith, find-append p xs ys)
