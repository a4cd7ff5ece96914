-- ===== src/Supervisor/Logs.antt =====
-- `ringBuffer` of internal/supervisor/manager_linux.go: the output of the process that is kept. A
-- byte is a number.
use Prim.Native.Nat.{zero, suc}
use sing_box_webui.Prelude.{
  ℕ, ◌+◌, ◌-◌, ◌≤◌, ◌≡◌, refl, sym, ap, ◌∙◌, false, List, [], ◌∷◌, ◌++◌, arith, ltb, leb, length,
  drop, if◌then◌else◌, Bool-cases, inl, inr, length-append,
}

-- The current bytes, without the overflow
room_for : ℕ → List ℕ → List ℕ → List ℕ
room_for capacity buffer data_ =
    let overflow = length buffer + length data_ - capacity in
    if ltb 0 overflow then drop overflow buffer else buffer

-- Write: the bytes kept, and the number that it returns
pub write : ℕ → List ℕ → List ℕ → List ℕ × ℕ
unfolding room_for
write capacity buffer data_ =
    let original = length data_ in
    if leb capacity (length data_)
    then (drop (length data_ - capacity) data_, original)
    else (room_for capacity buffer data_ ++ data_, original)

-- A new buffer after some writes
pub write_all : ℕ → List ℕ → List (List ℕ) → List ℕ
unfolding write
write_all capacity buffer [] = buffer
write_all capacity buffer (w ∷ ws) = write_all capacity (write capacity buffer w).0 ws

-- The last `n` bytes of all, or all of them
pub latest : ℕ → List ℕ → List ℕ
latest n [] = []
latest n (x ∷ xs) = if leb (length (x ∷ xs)) n then x ∷ xs else latest n xs

pub joined : List (List ℕ) → List ℕ
joined [] = []
joined (w ∷ ws) = w ++ joined ws

append_assoc : (xs ys zs : List ℕ) → (xs ++ ys) ++ zs ≡ xs ++ (ys ++ zs)
append_assoc [] ys zs = refl
append_assoc (x ∷ xs) ys zs = ap (λ (ts : List ℕ). x ∷ ts) (append_assoc xs ys zs)

append_nil : (xs : List ℕ) → xs ++ [] ≡ xs
append_nil [] = refl
append_nil (x ∷ xs) = ap (λ (ts : List ℕ). x ∷ ts) (append_nil xs)

latest_short : (n : ℕ) (xs : List ℕ) → length xs ≤ n → latest n xs ≡ xs
unfolding latest
latest_short n [] h = refl
latest_short n (x ∷ xs) h = ground arith

drop-suc : (n x : ℕ) (xs : List ℕ) → 1 ≤ n → drop n (x ∷ xs) ≡ drop (n - 1) xs
drop-suc zero x xs h = absurd (omega arith)
drop-suc (suc n) x xs h = ap (λ k. drop k xs) (omega arith)

drop_nil : (k : ℕ) → drop {A = ℕ} k [] ≡ []
drop_nil zero = refl
drop_nil (suc k) = refl

drop-latest : (n : ℕ) (xs : List ℕ) → drop (length xs - n) xs ≡ latest n xs
unfolding latest
drop-latest n [] = drop_nil (0 - n)
drop-latest n (x ∷ xs) = elim (Bool-cases (leb (length (x ∷ xs)) n)) [
  | inl e ↦ let z : length (x ∷ xs) - n ≡ 0 = ground arith in rw (e, z) refl
  | inr e ↦
      let z : length (x ∷ xs) - n - 1 ≡ length xs - n = ground arith in
      rw (e, drop-suc (length (x ∷ xs) - n) x xs (ground arith), z) (drop-latest n xs)
]

latest-append : (n : ℕ) (xs ys : List ℕ) → n ≤ length ys → latest n (xs ++ ys) ≡ latest n ys
unfolding latest
latest-append n [] ys h = refl
latest-append n (x ∷ xs) ys h =
    let l = length-append xs ys in let r = latest-append n xs ys h in ground arith

drop-append : (k : ℕ) (xs ys : List ℕ) → k ≤ length xs → drop k xs ++ ys ≡ drop k (xs ++ ys)
drop-append zero xs ys h = refl
drop-append (suc k) [] ys h = absurd (omega arith)
drop-append (suc k) (x ∷ xs) ys h = drop-append k xs ys (omega arith)

whole :
    (n : ℕ) (zs ys : List ℕ)
    → length ys ≤ n
    → length zs ≤ n
    → room_for n zs ys ++ ys ≡ latest n (zs ++ ys)
unfolding room_for
whole n zs ys h k = elim (Bool-cases (ltb 0 (length zs + length ys - n))) [
  | inl e ↦ rw e (
      drop-append (length zs + length ys - n) zs ys (ground arith)
      ∙ (let l = sym (length-append zs ys) in rw l (drop-latest n (zs ++ ys))))
  | inr e ↦ rw e (let l = length-append zs ys in sym (latest_short n (zs ++ ys) (ground arith)))
]

-- The bytes that are dropped to make room are the oldest.
room-latest :
    (n : ℕ) (xs ys : List ℕ)
    → length ys ≤ n
    → room_for n (latest n xs) ys ++ ys ≡ latest n (xs ++ ys)
unfolding room_for latest
room-latest n [] ys h = whole n [] ys h (omega arith)
room-latest n (x ∷ xs) ys h =
    let l = length-append (x ∷ xs) ys in
    let r = room-latest n xs ys h in
    elim (Bool-cases (leb (length (x ∷ xs)) n)) [
      | inl e ↦ rw e (whole n (x ∷ xs) ys h (ground arith))
      | inr e ↦ let g : leb (length ((x ∷ xs) ++ ys)) n ≡ false = ground arith in rw (e, g) r
    ]

write-latest :
    (n : ℕ) (log data_ : List ℕ) → (write n (latest n log) data_).0 ≡ latest n (log ++ data_)
unfolding write
write-latest n log data_ = elim (Bool-cases (leb n (length data_))) [
  | inl e ↦ rw e (drop-latest n data_ ∙ sym (latest-append n log data_ (ground arith)))
  | inr e ↦ rw e (room-latest n log data_ (ground arith))
]

written :
    (n : ℕ) (log : List ℕ) (ws : List (List ℕ))
    → write_all n (latest n log) ws ≡ latest n (log ++ joined ws)
unfolding write_all joined
written n log [] = ap (latest n) (sym (append_nil log))
written n log (w ∷ ws) =
    rw (write-latest n log w)
      (written n (log ++ w) ws ∙ ap (latest n) (append_assoc log w (joined ws)))

-- After any writes, the buffer holds the last `capacity` bytes of all that was written, or all of them.
pub logs_refine_output :
    (capacity : ℕ) (ws : List (List ℕ)) → write_all capacity [] ws ≡ latest capacity (joined ws)
logs_refine_output capacity ws =
    let e : latest capacity [] ≡ [] = unfold latest in refl in rw (sym e) (written capacity [] ws)
