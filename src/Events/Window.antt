-- ===== src/Events/Window.antt =====
-- The window over the log of the broker: the newest events, of at most a number of them.
use sing_box_webui.Prelude.{
  ℕ, ◌≤◌, ◌≡◌, refl, ap, List, [], ◌∷◌, ◌++◌, leb, length, if◌then◌else◌, arith, length-append,
}
use sing_box_webui.Events.{Event, shift_in, record_event}

-- The last `n` of a list, or all of it
unfoldable pub latest : ℕ → List Event → List Event
latest n [] = []
latest n (x ∷ xs) = if leb (length (x ∷ xs)) n then x ∷ xs else latest n xs

pub append_assoc : (xs ys zs : List Event) → (xs ++ ys) ++ zs ≡ xs ++ (ys ++ zs)
append_assoc [] ys zs = refl
append_assoc (x ∷ xs) ys zs = ap (λ (ts : List Event). x ∷ ts) (append_assoc xs ys zs)

pub append_nil : (xs : List Event) → xs ++ [] ≡ xs
append_nil [] = refl
append_nil (x ∷ xs) = ap (λ (ts : List Event). x ∷ ts) (append_nil xs)

shift_in_lem : (e x : Event) (xs : List Event) → shift_in e (x ∷ xs) ≡ xs ++ e ∷ []
unfolding shift_in
shift_in_lem e x [] = refl
shift_in_lem e x (y ∷ ys) = ap (λ (ts : List Event). y ∷ ts) (shift_in_lem e y ys)

latest_short : (n : ℕ) (xs : List Event) → length xs ≤ n → latest n xs ≡ xs
unfolding latest
latest_short n [] h = refl
latest_short n (x ∷ xs) h = ground arith

-- Recording an event moves the window of the newest ones by one.
pub record-latest :
    (n : ℕ) (e : Event) (xs : List Event)
    → 1 ≤ n
    → record_event n e (latest n xs) ≡ latest n (xs ++ e ∷ [])
unfolding latest record_event
record-latest n e [] h = ground arith
record-latest n e (x ∷ xs) h =
    let l = length-append xs (e ∷ []) in
    let s = shift_in_lem e x xs in
    let r = record-latest n e xs h in let t = latest_short n (xs ++ e ∷ []) in ground arith
