-- ===== src/Forward/Tcp/Handlers.antt =====
-- Lists of handlers: which connections they have, and how a handler that ends or that gets its target
-- changes that.
use portflow.Prelude.{
  ℕ, ◌+◌, ◌≡◌, refl, Bool, true, false, none, some, List, [], ◌∷◌, ◌&&◌, ◌||◌, not, eqb, arith,
  on_option, length, Bool-cases, inl, inr,
}
use portflow.Forward.Manager.{without}
use portflow.Forward.Manager.Growth.{is_open, is_open-without}
use portflow.Forward.Tcp.{Handler, find_handler, drop_handler, link_handler, close_each}

abbrev pub has_target : ℕ → Handler → Bool
has_target h handler = on_option handler.target false λ target. eqb target h

abbrev pub has : ℕ → Handler → Bool
has h handler = eqb handler.client h || has_target h handler

unfoldable pub own : ℕ → List Handler → Bool
own h [] = false
own h (handler ∷ handlers) = has h handler || own h handlers

unfoldable pub own_target : ℕ → List Handler → Bool
own_target h [] = false
own_target h (handler ∷ handlers) = has_target h handler || own_target h handlers

-- No connection belongs to two handlers, or to one as its client and its target.
unfoldable pub AreApart : List Handler → Type 0
AreApart [] = Unit
AreApart (handler ∷ handlers) =
    (own handler.client handlers ≡ false)
    × (has_target handler.client handler ≡ false)
    × ((h : ℕ) → has_target h handler ≡ true → own h handlers ≡ false)
    × AreApart handlers

own_found :
    (h client : ℕ) (handler : Handler) (handlers : List Handler)
    → find_handler client handlers ≡ some handler
    → has h handler ≡ true
    → own h handlers ≡ true
unfolding find_handler own
own_found h client handler [] e k = absurd (ground (arith, e))
own_found h client handler (other ∷ handlers) e k =
    ground (arith, own_found h client handler handlers)

own_of_target :
    (h : ℕ) (handlers : List Handler) → own_target h handlers ≡ true → own h handlers ≡ true
unfolding own own_target
own_of_target h [] e = absurd (ground (arith, e))
own_of_target h (handler ∷ handlers) e = ground (arith, e, own_of_target h handlers)

pub own-drop_handler :
    (h client : ℕ) (handler : Handler) (handlers : List Handler)
    → AreApart handlers
    → find_handler client handlers ≡ some handler
    → own h (drop_handler client handlers) ≡ (own h handlers && not (has h handler))
unfolding AreApart find_handler drop_handler own
own-drop_handler h client handler [] a e = absurd (ground (arith, e))
own-drop_handler h client handler (other ∷ handlers) a e = ground (
  arith,
  a.2 h,
  own_found h client handler handlers,
  own-drop_handler h client handler handlers a.3,
)

pub own_target-drop_handler :
    (h client : ℕ) (handler : Handler) (handlers : List Handler)
    → AreApart handlers
    → find_handler client handlers ≡ some handler
    → own_target h (drop_handler client handlers)
      ≡ (own_target h handlers && not (has_target h handler))
unfolding AreApart find_handler drop_handler own_target
own_target-drop_handler h client handler [] a e = absurd (ground (arith, e))
own_target-drop_handler h client handler (other ∷ handlers) a e = ground (
  arith,
  a.2 h,
  own_of_target h handlers,
  own_found h client handler handlers,
  own_target-drop_handler h client handler handlers a.3,
)

pub length-drop_handler :
    (client : ℕ) (handler : Handler) (handlers : List Handler)
    → find_handler client handlers ≡ some handler
    → length (drop_handler client handlers) + 1 ≡ length handlers
unfolding find_handler drop_handler
length-drop_handler client handler [] e = absurd (ground (arith, e))
length-drop_handler client handler (other ∷ handlers) e =
    ground (arith, length-drop_handler client handler handlers)

pub drop_handler-AreApart :
    (client : ℕ) (handler : Handler) (handlers : List Handler)
    → AreApart handlers
    → find_handler client handlers ≡ some handler
    → AreApart (drop_handler client handlers)
unfolding AreApart find_handler drop_handler
drop_handler-AreApart client handler [] a e = tt
drop_handler-AreApart client handler (other ∷ handlers) a e =
    elim (Bool-cases (eqb other.client client)) [
      | inl same ↦ rw (drop_handler, same) a.3
      | inr differs ↦
          let found : find_handler client handlers ≡ some handler = ground (arith, e, differs) in
          let kept = λ (h : ℕ). own-drop_handler h client handler handlers a.3 found in
          rw (drop_handler, differs)
            (
              ground (arith, a.0, kept other.client),
              a.1,
              (λ h k. ground (arith, a.2 h, k, kept h)),
              drop_handler-AreApart client handler handlers a.3 found,
            )
    ]

module _ (client target : ℕ) (handler : Handler) (undialed : handler.target ≡ none) where
  pub own-link_handler :
      (h : ℕ) (handlers : List Handler)
      → find_handler client handlers ≡ some handler
      → own h (link_handler client target handlers) ≡ (own h handlers || eqb target h)
  unfolding find_handler link_handler own
  own-link_handler h [] e = absurd (ground (arith, e))
  own-link_handler h (other ∷ handlers) e = ground (arith, undialed, e, own-link_handler h handlers)

  pub own_target-link_handler :
      (h : ℕ) (handlers : List Handler)
      → find_handler client handlers ≡ some handler
      → own_target h (link_handler client target handlers) ≡ (own_target h handlers || eqb target h)
  unfolding find_handler link_handler own_target
  own_target-link_handler h [] e = absurd (ground (arith, e))
  own_target-link_handler h (other ∷ handlers) e =
      ground (arith, undialed, e, own_target-link_handler h handlers)

  pub link_handler-AreApart :
      (handlers : List Handler)
      → find_handler client handlers ≡ some handler
      → own target handlers ≡ false
      → AreApart handlers
      → AreApart (link_handler client target handlers)
  unfolding find_handler link_handler AreApart own
  link_handler-AreApart [] e new a = tt
  link_handler-AreApart (other ∷ handlers) e new a = elim (Bool-cases (eqb other.client client)) [
    | inl same ↦
        rw (link_handler, same) (a.0, ground (arith, new), (λ h k. ground (arith, new, k)), a.3)
    | inr differs ↦
        let found : find_handler client handlers ≡ some handler = ground (arith, e, differs) in
        let linked = λ (h : ℕ). own-link_handler h handlers found in
        rw (link_handler, differs)
          (
            ground (arith, a.0, new, linked other.client),
            a.1,
            (λ h k. ground (arith, a.2 h, k, new, linked h)),
            link_handler-AreApart handlers found (ground (arith, new)) a.3,
          )
  ]

pub length-link_handler :
    (client target : ℕ) (handlers : List Handler)
    → length (link_handler client target handlers) ≡ length handlers
unfolding link_handler
length-link_handler client target [] = refl
length-link_handler client target (other ∷ handlers) =
    ground (arith, length-link_handler client target handlers)

-- What close leaves open: nothing that is tracked.
pub is_open-close_each :
    (h : ℕ) (connections opened : List ℕ)
    → is_open h (close_each connections opened) ≡ (is_open h opened && not (is_open h connections))
unfolding close_each is_open
is_open-close_each h [] opened = ground arith
is_open-close_each h (c ∷ connections) opened =
    ground (arith, is_open-close_each h connections (without c opened), is_open-without h c opened)
