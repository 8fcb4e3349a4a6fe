-- ===== src/Memory/Window.antt =====
-- The buffer is the end of what was added, and it survives being saved and loaded.
use mathlib.Core.List.{append_assoc, append-nil}
use smallpieclaw.Prelude.{
  ℕ, suc, zero, ◌+◌, ◌-◌, ◌≤◌, ◌≡◌, refl, ap, ◌∙◌, sym, List, [], ◌∷◌, ◌++◌, arith, leb, length,
  drop, length-append, length-drop, leb→le, leb-false→lt, Bool-cases, inl, inr,
}
use smallpieclaw.Memory.{
  Message, append, new, add, load_entries, from_dict, to_dict, Op, add_op, clear_op, replay,
}

-- The last `n` elements.
abbrev pub last {ℓ} : {A : Type ℓ} → ℕ → List A → List A
last n xs = drop (length xs - n) xs

-- The messages added since the last `clear`, behind those that were there.
unfoldable pub added : List Op → List Message → List Message
added [] seen = seen
added (add_op role content ∷ ops) seen =
    added ops (seen ++ record { role = role; content = content } ∷ [])
added (clear_op ∷ ops) seen = added ops []

drop_same {ℓ} : {A : Type ℓ} (j k : ℕ) (xs : List A) → j ≡ k → drop j xs ≡ drop k xs
drop_same j k xs e = ap (λ i. drop i xs) e

drop-append {ℓ} :
    {A : Type ℓ} (k : ℕ) (xs ys : List A) → k ≤ length xs → drop k (xs ++ ys) ≡ drop k xs ++ ys
drop-append zero xs ys h = refl
drop-append (suc k) [] ys h = absurd (omega arith)
drop-append (suc k) (x ∷ xs) ys h = drop-append k xs ys (omega arith)

drop-drop_one {ℓ} : {A : Type ℓ} (k : ℕ) (xs : List A) → drop 1 (drop k xs) ≡ drop (suc k) xs
drop-drop_one zero [] = refl
drop-drop_one zero (x ∷ xs) = refl
drop-drop_one (suc k) [] = refl
drop-drop_one (suc k) (x ∷ xs) = drop-drop_one k xs

last-nil {ℓ} : {A : Type ℓ} (n : ℕ) → last {A = A} n [] ≡ []
last-nil n = drop_same (0 - n) 0 [] (omega arith)

length-last_append :
    (n : ℕ) (seen : List Message) (m : Message)
    → length (last n seen ++ m ∷ []) ≡ length seen - (length seen - n) + 1
length-last_append n seen m =
    omega (arith, length-append (last n seen) (m ∷ []), length-drop (length seen - n) seen)

-- An append to the end of a list gives the end of the longer list.
append-last :
    (n : ℕ) (seen : List Message) (m : Message) → append n (last n seen) m ≡ last n (seen ++ m ∷ [])
unfolding append
append-last n seen m =
    let k = length seen - n in
    let moved : drop k (seen ++ m ∷ []) ≡ drop k seen ++ m ∷ [] =
      drop-append k seen (m ∷ []) (omega arith) in
    let size = length-last_append n seen m in
    let longer = length-append seen (m ∷ []) in
    elim (Bool-cases (leb (length (last n seen ++ m ∷ [])) n)) [
      | inl fits ↦
          rw (fits, append)
            (sym moved
              ∙ drop_same k (length (seen ++ m ∷ []) - n) (seen ++ m ∷ [])
                  (omega (arith, leb→le _ n fits, size, longer)))
      | inr full ↦
          rw (full, append)
            (ap (λ xs. drop 1 xs) (sym moved)
              ∙ drop-drop_one k (seen ++ m ∷ [])
              ∙ drop_same (suc k) (length (seen ++ m ∷ []) - n) (seen ++ m ∷ [])
                  (omega (arith, leb-false→lt _ n full, size, longer)))
    ]

-- The buffer, started from the end of what was seen.
replay-last :
    (ops : List Op) (n : ℕ) (seen : List Message)
    → replay ops (record { max_turns = n; buffer = last n seen })
      ≡ record { max_turns = n; buffer = last n (added ops seen) }
unfolding replay added add
replay-last [] n seen = refl
replay-last (add_op role content ∷ ops) n seen =
    let m : Message = record { role = role; content = content } in
    rw (append-last n seen m) (replay-last ops n (seen ++ m ∷ []))
replay-last (clear_op ∷ ops) n seen =
    ap (λ b. replay ops (record { max_turns = n; buffer = b })) (sym (last-nil n))
    ∙ replay-last ops n []

-- After any history of operations on a new memory, its buffer holds the last `max_turns` of the
-- messages that were added since it was last cleared, in their order.
replay-window :
    (ops : List Op) (max_turns : ℕ)
    → (replay ops (new max_turns)).buffer ≡ last max_turns (added ops [])
replay-window ops max_turns =
    ap (λ b. (replay ops (record { max_turns = max_turns; buffer = b })).buffer)
      (sym (last-nil max_turns))
    ∙ ap (λ memory. memory.buffer) (replay-last ops max_turns [])

load-last :
    (n : ℕ) (more seen : List Message)
    → load_entries n (to_dict more) (last n seen) ≡ last n (seen ++ more)
unfolding load_entries to_dict
load-last n [] seen = ap (λ xs. last n xs) (sym (append-nil seen))
load-last n (m ∷ more) seen =
    rw (append-last n seen m, load_entries)
      (load-last n more (seen ++ m ∷ []) ∙ ap (λ xs. last n xs) (append_assoc seen (m ∷ []) more))

-- What a memory saves, loaded again, is the end of its buffer that fits into the new window.
pub from_dict-to_dict :
    (max_turns : ℕ) (buffer : List Message)
    → (from_dict (to_dict buffer) max_turns).buffer ≡ last max_turns buffer
unfolding from_dict
from_dict-to_dict max_turns buffer =
    ap (λ b. load_entries max_turns (to_dict buffer) b) (sym (last-nil max_turns))
    ∙ load-last max_turns buffer []
