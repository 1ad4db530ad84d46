-- ===== src/Forward/Manager/Ownership/Replaced.antt =====
-- Which sockets the loops over the old listeners close.
use portflow.Prelude.{
  ℕ, String, ◌≡◌, Bool, true, false, some, [], ◌∷◌, ◌==◌, ◌&&◌, ◌||◌, not, eqb, arith, Bool-cases,
  inl, inr, on_option, eq_iff, eq_refl, subst,
}
use portflow.Dict.{Dict, lookup, Distinct}
use portflow.Forward.Manager.{Sockets, Listener, close_socket, close_replaced}
use portflow.Forward.Manager.Growth.{is_open, has_handle, is_open-without}
use portflow.Forward.Manager.Ownership.Opened.{handle_found}

-- The next listener under this identifier has this handle.
abbrev pub stays_at : ℕ → String → Dict Listener → Bool
stays_at h k next = on_option (lookup k next) false λ other. eqb other.handle h

-- The loop over the old listeners closes this handle.
unfoldable pub replaced : ℕ → Dict Listener → Dict Listener → Bool
replaced h [] next = false
replaced h ((id, listener) ∷ rest) next =
    (eqb listener.handle h && not (stays_at h id next)) || replaced h rest next

pub is_open-close_replaced :
    (h : ℕ) (held next : Dict Listener) (sockets : Sockets)
    → is_open h (close_replaced held next sockets).opened
      ≡ (is_open h sockets.opened && not (replaced h held next))
unfolding close_replaced replaced
is_open-close_replaced h [] next sockets = ground arith
is_open-close_replaced h ((id, listener) ∷ rest) next sockets =
    elim (Bool-cases (stays_at listener.handle id next)) [
      | inl stays ↦
          rw (close_replaced, stays)
            (ground (arith, stays, is_open-close_replaced h rest next sockets))
      | inr goes ↦
          rw (close_replaced, goes)
            (ground (
              arith,
              goes,
              is_open-close_replaced h rest next (close_socket listener.handle sockets),
              is_open-without h listener.handle sockets.opened,
            ))
    ]

pub handle_here :
    (h : ℕ) (k : String) (l : Listener) (listeners : Dict Listener)
    → lookup k listeners ≡ some l
    → l.handle ≡ h
    → has_handle h listeners ≡ true
handle_here h k l listeners e same =
    subst (λ (g : ℕ). has_handle g listeners ≡ true) same (handle_found k l listeners e)

pub replaced_from :
    (h : ℕ) (held next : Dict Listener)
    → Distinct held
    → replaced h held next ≡ true
    → (k : String) × (l : Listener) × (lookup k held ≡ some l)
      × (l.handle ≡ h)
      × (stays_at h k next ≡ false)
unfolding replaced lookup
replaced_from h [] next d e = absurd (ground (arith, e))
replaced_from h ((id, x) ∷ rest) next d e =
    elim (Bool-cases (eqb x.handle h && not (stays_at h id next))) [
      | inl goes ↦ (id, x, ground (arith, eq_refl id), ground (arith, goes), ground (arith, goes))
      | inr stays ↦
          let found = replaced_from h rest next d.1 (ground (arith, e, stays)) in
          (found.0, found.1, ground (arith, d.0, eq_iff id found.0, found.2), found.3, found.4)
    ]

pub replaced_found :
    (h : ℕ) (k : String) (l : Listener) (held next : Dict Listener)
    → lookup k held ≡ some l
    → l.handle ≡ h
    → stays_at h k next ≡ false
    → replaced h held next ≡ true
unfolding replaced lookup
replaced_found h k l [] next e same goes = absurd (ground (arith, e))
replaced_found h k l ((id, x) ∷ rest) next e same goes = elim (Bool-cases (id == k)) [
  | inl is ↦
      let key : k ≡ id = ground (arith, eq_iff id k, is) in
      let out : stays_at h id next ≡ false =
        subst (λ (j : String). stays_at h j next ≡ false) key goes in
      ground (arith, e, same, is, out)
  | inr differs ↦ ground (arith, replaced_found h k l rest next, differs)
]
