-- ===== src/Forward/Manager/Growth.antt =====
-- The sockets that a loop of Apply opens: each is new, and belongs to one started listener.
use portflow.Prelude.{
  ℕ, ◌≤◌, String, ◌≡◌, refl, Bool, true, false, none, some, List, [], ◌∷◌, ◌&&◌, ◌||◌, not, eqb,
  arith, Bool-cases, Option-cases, inl, inr, eq_iff, eq_refl,
}
use portflow.Dict.{Dict, lookup, insert, Distinct}
use portflow.Dict.Laws.{lookup-insert}
use portflow.Forward.Prepare.{PreparedRule}
use portflow.Forward.Manager.{
  Host, Sockets, Listener, Started, runs, stays, start_one, start_all, without, close_socket,
  close_all, new_listener,
}

-- The socket with this handle is open.
unfoldable pub is_open : ℕ → List ℕ → Bool
is_open handle [] = false
is_open handle (h ∷ handles) = eqb h handle || is_open handle handles

-- A listener of these has this handle.
unfoldable pub has_handle : ℕ → Dict Listener → Bool
has_handle handle [] = false
has_handle handle ((id, listener) ∷ rest) = eqb listener.handle handle || has_handle handle rest

pub is_open-without :
    (h closing : ℕ) (handles : List ℕ)
    → is_open h (without closing handles) ≡ (is_open h handles && not (eqb h closing))
unfolding is_open without
is_open-without h closing [] = refl
is_open-without h closing (g ∷ handles) = ground (arith, is_open-without h closing handles)

pub is_open-close_all :
    (h : ℕ) (listeners : Dict Listener) (sockets : Sockets)
    → is_open h (close_all listeners sockets).opened
      ≡ (is_open h sockets.opened && not (has_handle h listeners))
unfolding close_all has_handle
is_open-close_all h [] sockets = ground arith
is_open-close_all h ((id, listener) ∷ rest) sockets = ground (
  arith,
  is_open-close_all h rest (close_socket listener.handle sockets),
  is_open-without h listener.handle sockets.opened,
)

has_handle-insert :
    (h : ℕ) (id : String) (listener : Listener) (listeners : Dict Listener)
    → lookup id listeners ≡ none
    → has_handle h (insert id listener listeners)
      ≡ (has_handle h listeners || eqb listener.handle h)
unfolding has_handle insert lookup
has_handle-insert h id listener [] e = ground arith
has_handle-insert h id listener ((k, other) ∷ rest) e =
    ground (arith, has_handle-insert h id listener rest)

-- The open sockets are those of the base and those of the started listeners, which are newer.
pub record Grown (base : Sockets) (state : Started) : Type 0 where
  pub opened : (h : ℕ) → is_open h state.1.opened ≡ (is_open h base.opened || has_handle h state.0)
  pub fresh : (h : ℕ) → has_handle h state.0 ≡ true → base.calls ≤ h
  pub later : base.calls ≤ state.1.calls

-- Nothing is started under an identifier that is still to come.
pub Apart : Dict PreparedRule → Dict Listener → Type 0
Apart desired started =
    (k : String) (listener : Listener) → lookup k started ≡ some listener → lookup k desired ≡ none

pub first_unstarted :
    (id : String) (prepared : PreparedRule) (desired : Dict PreparedRule) (started : Dict Listener)
    → Apart ((id, prepared) ∷ desired) started
    → lookup id started ≡ none
unfolding Apart lookup
first_unstarted id prepared desired started a = elim (Option-cases (lookup id started)) [
  | inl e ↦ e
  | inr (listener, e) ↦ absurd (ground (arith, a id listener e, eq_refl id))
]

module _ (host : Host) (network own : String) (held : Dict Listener) (base : Sockets) where
  start_one-Grown :
      (id : String) (prepared : PreparedRule) (started : Dict Listener) (sockets : Sockets)
      → lookup id started ≡ none
      → Grown base (started, sockets)
      → Grown base (start_one host network own held id prepared (started, sockets)).1
  unfolding start_one is_open
  start_one-Grown id prepared started sockets e g =
      elim (Bool-cases (not (runs own prepared) || stays held id prepared)) [
        | inl skipped ↦ rw skipped g
        | inr needed ↦
            elim (Option-cases
              (host.listen network prepared.listen_host prepared.listen_port sockets.calls)) [
                | inr (text, failed) ↦
                    rw (needed, failed)
                      (record {
                        opened = g.opened;
                        fresh = g.fresh;
                        later = ground (arith, g.later);
                      })
                | inl bound ↦
                    let new = new_listener sockets.calls prepared in
                    rw (needed, bound)
                      (record {
                        opened =
                            λ h. ground (arith, has_handle-insert h id new started e, g.opened h);
                        fresh = λ h k.
                            ground
                              (arith, has_handle-insert h id new started e, g.fresh h, g.later);
                        later = ground (arith, g.later);
                      })
              ]
      ]

  pub start_one-Apart :
      (id : String) (prepared : PreparedRule) (desired : Dict PreparedRule)
      (started : Dict Listener) (sockets : Sockets)
      → lookup id desired ≡ none
      → Apart ((id, prepared) ∷ desired) started
      → Apart desired (start_one host network own held id prepared (started, sockets)).1.0
  unfolding start_one Apart lookup
  start_one-Apart id prepared desired started sockets alone a =
      elim (Bool-cases (not (runs own prepared) || stays held id prepared)) [
        | inl skipped ↦ rw skipped λ k listener found. ground (arith, a k listener found)
        | inr needed ↦
            elim (Option-cases
              (host.listen network prepared.listen_host prepared.listen_port sockets.calls)) [
                | inr (text, failed) ↦
                    rw (needed, failed) λ k listener found. ground (arith, a k listener found)
                | inl bound ↦
                    rw (needed, bound)
                      λ k listener found. ground (
                        arith,
                        lookup-insert id k (new_listener sockets.calls prepared) started,
                        a k listener,
                        alone,
                        eq_iff id k,
                      )
              ]
      ]

  start_all-Grown :
      (desired : Dict PreparedRule) (started : Dict Listener) (sockets : Sockets)
      → Distinct desired
      → Apart desired started
      → Grown base (started, sockets)
      → Grown base (start_all host network own held desired (started, sockets)).1
  unfolding start_all
  start_all-Grown [] started sockets d a g = g
  start_all-Grown ((id, prepared) ∷ desired) started sockets d a g =
      let next = start_one host network own held id prepared (started, sockets) in
      let unstarted = first_unstarted id prepared desired started a in
      let grown = start_one-Grown id prepared started sockets unstarted g in
      elim (Option-cases next.0) [
        | inr (e, failed) ↦ rw (start_all, failed) grown
        | inl fine ↦
            rw (start_all, fine)
              (start_all-Grown desired next.1.0 next.1.1 d.1
                (start_one-Apart id prepared desired started sockets d.0 a) grown)
      ]

nothing_started : (base : Sockets) → Grown base ([], base)
unfolding has_handle
nothing_started base = record {
  opened = λ h. ground arith;
  fresh = λ h k. ground arith;
  later = omega arith;
}

pub empty-Apart : (desired : Dict PreparedRule) → Apart desired []
unfolding Apart lookup
empty-Apart desired k listener e = absurd (ground arith)

pub start_all_lem :
    (host : Host) (network own : String) (held : Dict Listener) (sockets : Sockets)
    (desired : Dict PreparedRule)
    → Distinct desired
    → Grown sockets (start_all host network own held desired ([], sockets)).1
start_all_lem host network own held sockets desired d =
    start_all-Grown host network own held sockets desired [] sockets d (empty-Apart desired)
      (nothing_started sockets)
