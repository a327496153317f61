-- ===== src/MockProvider/Recent.antt =====
-- The inbox of internal/mockprovider/mockprovider.go against the list of all messages.
use mathlib.Core.List.{reverse_aux, reverse-append}
use notifier.Base.{
  ℕ, zero, suc, ◌-◌, ◌≤◌, ◌≡◌, refl, sym, ap, ◌∙◌, List, [], ◌∷◌, ◌++◌, reverse, ltb, length,
  length-append, take, drop, arith, Bool-cases, inl, inr,
}
use notifier.MockProvider.{ReceivedMessage, Store, buffer_size, new_store, add, recent}

take_all : (n : ℕ) (s : Store) → length s ≤ n → take n s ≡ s
take_all zero [] h = refl
take_all zero (x ∷ xs) h = absurd (omega (arith, h))
take_all (suc n) [] h = refl
take_all (suc n) (x ∷ xs) h = ap (λ l. x ∷ l) (take_all n xs (omega (arith, h)))

take-append : (n : ℕ) (a b : Store) → n ≤ length a → take n (a ++ b) ≡ take n a
take-append zero a b h = refl
take-append (suc n) [] b h = absurd (omega (arith, h))
take-append (suc n) (x ∷ xs) b h = ap (λ l. x ∷ l) (take-append n xs b (omega (arith, h)))

take-take : (n : ℕ) (s : Store) → take n (take (suc n) s) ≡ take n s
take-take zero s = refl
take-take (suc n) [] = refl
take-take (suc n) (x ∷ xs) = ap (λ l. x ∷ l) (take-take n xs)

length-reverse : (s : Store) → length (reverse s) ≡ length s
length-reverse [] = refl
length-reverse (x ∷ xs) =
    let split : length (reverse (x ∷ xs)) ≡ length (reverse xs ++ x ∷ []) =
      ap length (reverse-append (x ∷ []) xs) in
    omega (arith, split, length-append (reverse xs) (x ∷ []), length-reverse xs)

-- Dropping the oldest messages is taking the newest ones.
reverse-drop :
    (k : ℕ) (s : Store) → k ≤ length s → reverse (drop k s) ≡ take (length s - k) (reverse s)
reverse-drop zero s h = sym (take_all (length s - 0) (reverse s) (omega (arith, length-reverse s)))
reverse-drop (suc k) [] h = absurd (omega (arith, h))
reverse-drop (suc k) (x ∷ xs) h =
    let same : suc (length xs) - suc k ≡ length xs - k = omega arith in
    reverse-drop k xs (omega (arith, h))
    ∙ sym (
        ap (λ n. take n (reverse (x ∷ xs))) same
        ∙ ap (take (length xs - k)) (reverse-append (x ∷ []) xs)
        ∙ take-append (length xs - k) (reverse xs) (x ∷ []) (omega (arith, length-reverse xs)))

length-drop : (k : ℕ) (s : Store) → length (drop k s) ≡ length s - k
length-drop zero s = omega arith
length-drop (suc k) [] = omega arith
length-drop (suc k) (x ∷ xs) = omega (arith, length-drop k xs)

-- The store shows the newest messages of a history, newest first.
record Refines (store : Store) (history : List ReceivedMessage) : Type 0 where
  shows : recent store ≡ take buffer_size history
  fits : length store ≤ buffer_size

pub recent-add :
    (store : Store) (m : ReceivedMessage)
    → length store ≤ buffer_size
    → recent (add store m) ≡ take buffer_size (m ∷ recent store)
unfolding recent add
recent-add store m h =
    let turned : reverse (store ++ m ∷ []) ≡ m ∷ reverse store = reverse-append store (m ∷ []) in
    let size = length-append store (m ∷ []) in
    elim (Bool-cases (ltb buffer_size (length (store ++ m ∷ [])))) [
      | inl full ↦ rw full (
          reverse-drop (length (store ++ m ∷ []) - buffer_size) (store ++ m ∷ []) (omega arith)
          ∙ let n : length (store ++ m ∷ []) - (length (store ++ m ∷ []) - buffer_size)
                ≡ buffer_size =
              ground arith in
            ap (λ k. take k (reverse (store ++ m ∷ []))) n ∙ ap (take buffer_size) turned)
      | inr room ↦ rw room (
          turned
          ∙ sym (
              take_all buffer_size (m ∷ reverse store)
                (let l = length-reverse store in ground (arith, l, size))))
    ]

length-add :
    (store : Store) (m : ReceivedMessage)
    → length store ≤ buffer_size
    → length (add store m) ≤ buffer_size
unfolding add
length-add store m h = ground (
  arith,
  length-append store (m ∷ []),
  length-drop (length (store ++ m ∷ []) - buffer_size) (store ++ m ∷ []),
)

add-Refines :
    (store : Store) (history : List ReceivedMessage) (m : ReceivedMessage)
    → Refines store history
    → Refines (add store m) (m ∷ history)
add-Refines store history m r = record {
  shows =
      recent-add store m r.fits
      ∙ ap (λ l. take buffer_size (m ∷ l)) r.shows
      ∙ ap (λ l. m ∷ l) (take-take 199 history);
  fits = length-add store m r.fits;
}

-- The messages in the order in which they arrive.
unfoldable pub add_all : Store → List ReceivedMessage → Store
add_all store [] = store
add_all store (m ∷ ms) = add_all (add store m) ms

add_all-Refines :
    (store : Store) (history ms : List ReceivedMessage)
    → Refines store history
    → Refines (add_all store ms) (reverse_aux ms history)
unfolding add_all
add_all-Refines store history [] r = r
add_all-Refines store history (m ∷ ms) r =
    add_all-Refines (add store m) (m ∷ history) ms (add-Refines store history m r)

-- Whatever messages were received and however many: the inbox shows the last 200 of all of them, newest
-- first, so the store of bounded size implements the list of everything received.
pub recent-add_all :
    (ms : List ReceivedMessage) → recent (add_all new_store ms) ≡ take buffer_size (reverse ms)
unfolding recent
recent-add_all ms =
    (add_all-Refines new_store [] ms (record { shows = refl; fits = omega arith })).shows
