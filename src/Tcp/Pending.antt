-- ===== src/Tcp/Pending.antt =====
-- The operations of AppTcpClient that have not completed, counted by kind and generation.
use linux_pbs.Base.{
  ℕ, zero, suc, ◌+◌, ◌≤◌, ◌≡◌, refl, ap, subst, ◌∙◌, arith, Bool, true, false, none, some, List, [],
  ◌∷◌, ◌==◌, All,
}
use linux_pbs.Tcp.{Operation, connecting_op, reading_op, writing_op, pick, removed}

abbrev pub generation_of : Operation → ℕ
generation_of (connecting_op g) = g
generation_of (reading_op g) = g
generation_of (writing_op g message) = g

abbrev pub bit : Bool → ℕ
bit true = 1
bit false = 0

abbrev pub is_connect : ℕ → Operation → Bool
is_connect n (connecting_op g) = g == n
is_connect n _ = false

abbrev pub is_write : ℕ → Operation → Bool
is_write n (writing_op g message) = g == n
is_write n _ = false

abbrev pub is_read : ℕ → Operation → Bool
is_read n (reading_op g) = g == n
is_read n _ = false

abbrev pub one_more : Bool → ℕ → ℕ
one_more true n = n + 1
one_more false n = n

one_more_swap : (a b : Bool) (n : ℕ) → one_more a (one_more b n) ≡ one_more b (one_more a n)
one_more_swap true true n = refl
one_more_swap true false n = refl
one_more_swap false true n = refl
one_more_swap false false n = refl

abbrev pub count : (Operation → Bool) → List Operation → ℕ
count p [] = 0
count p (o ∷ os) = one_more (p o) (count p os)

-- Started for this generation or an older one.
abbrev pub IsUpTo : ℕ → Operation → Type 0
IsUpTo n o = generation_of o ≤ n

pub IsUpTo-All-suc : (n : ℕ) (os : List Operation) → All (IsUpTo n) os → All (IsUpTo (n + 1)) os
IsUpTo-All-suc n [] h = tt
IsUpTo-All-suc n (o ∷ os) (h, hs) = (omega arith, IsUpTo-All-suc n os hs)

pub older : (g n : ℕ) → g ≤ n → (g == n + 1) ≡ false
older g n h = ground arith

-- Nothing is pending for a generation that has not begun.
pub count-older :
    (p : ℕ → Operation → Bool)
    → ((n : ℕ) (o : Operation) → IsUpTo n o → p (n + 1) o ≡ false)
    → (n : ℕ) (os : List Operation) → All (IsUpTo n) os
    → count (p (n + 1)) os ≡ 0
count-older p old n [] h = refl
count-older p old n (o ∷ os) (h, hs) = rw (old n o h) (count-older p old n os hs)

pub is_connect-older : (n : ℕ) (o : Operation) → IsUpTo n o → is_connect (n + 1) o ≡ false
is_connect-older n (connecting_op g) h = older g n h
is_connect-older n (reading_op g) h = refl
is_connect-older n (writing_op g message) h = refl

pub is_write-older : (n : ℕ) (o : Operation) → IsUpTo n o → is_write (n + 1) o ≡ false
is_write-older n (connecting_op g) h = refl
is_write-older n (reading_op g) h = refl
is_write-older n (writing_op g message) h = older g n h

pub is_read-older : (n : ℕ) (o : Operation) → IsUpTo n o → is_read (n + 1) o ≡ false
is_read-older n (connecting_op g) h = refl
is_read-older n (reading_op g) h = older g n h
is_read-older n (writing_op g message) h = refl

pub All-removed {κ} :
    (P : Operation → Type κ) (n : ℕ) (os : List Operation) → All P os → All P (removed n os)
All-removed P n [] h = tt
All-removed P zero (o ∷ os) (h, hs) = hs
All-removed P (suc n) (o ∷ os) (h, hs) = (h, All-removed P n os hs)

picked : (x o : Operation) → some x ≡ some o → x ≡ o
picked x o h = cc

-- What was counted is the removed operation and the others.
pub count-removed :
    (p : Operation → Bool) (n : ℕ) (os : List Operation) (o : Operation)
    → pick n os ≡ some o
    → count p os ≡ one_more (p o) (count p (removed n os))
count-removed p n [] o h = absurd (ground arith)
count-removed p zero (x ∷ os) o h = ap (λ y. one_more (p y) (count p os)) (picked x o h)
count-removed p (suc n) (x ∷ os) o h =
    ap (one_more (p x)) (count-removed p n os o h)
    ∙ one_more_swap (p x) (p o) (count p (removed n os))

pub All-pick {κ} :
    (P : Operation → Type κ) (n : ℕ) (os : List Operation) (o : Operation)
    → pick n os ≡ some o
    → All P os
    → P o
All-pick P n [] o h a = absurd (ground arith)
All-pick P zero (x ∷ os) o h (a, rest) = subst P (picked x o h) a
All-pick P (suc n) (x ∷ os) o h (a, rest) = All-pick P n os o h rest

pub removed-none : (n : ℕ) (os : List Operation) → pick n os ≡ none → removed n os ≡ os
removed-none n [] h = refl
removed-none zero (o ∷ os) h = absurd (ground arith)
removed-none (suc n) (o ∷ os) h = ap (λ xs. o ∷ xs) (removed-none n os h)
