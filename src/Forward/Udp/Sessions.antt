-- ===== src/Forward/Udp/Sessions.antt =====
-- Tables of sessions: which connections they hold, and how an entry that comes or goes changes that.
use portflow.Prelude.{
  ℕ, ◌+◌, String, ◌≡◌, refl, Bool, true, false, none, some, [], ◌∷◌, ◌&&◌, ◌||◌, not, eqb, arith,
  eq_iff, length,
}
use portflow.Dict.{Dict, lookup, insert, remove, Distinct}
use portflow.Dict.Entries.{remove_missing}
use portflow.Forward.Udp.{UdpSession}

-- A session of these holds this connection.
unfoldable pub holds : ℕ → Dict UdpSession → Bool
holds h [] = false
holds h ((key, session) ∷ rest) = eqb session.target h || holds h rest

-- No connection is held twice, and a session stands under its own key.
unfoldable pub AreApart : Dict UdpSession → Type 0
AreApart [] = Unit
AreApart ((key, session) ∷ rest) =
    (session.key ≡ key) × (holds session.target rest ≡ false) × AreApart rest

pub holds-insert :
    (h : ℕ) (key : String) (session : UdpSession) (sessions : Dict UdpSession)
    → lookup key sessions ≡ none
    → holds h (insert key session sessions) ≡ (holds h sessions || eqb session.target h)
unfolding holds insert lookup
holds-insert h key session [] e = ground arith
holds-insert h key session ((k, other) ∷ rest) e = ground (arith, holds-insert h key session rest)

pub insert-AreApart :
    (key : String) (session : UdpSession) (sessions : Dict UdpSession)
    → lookup key sessions ≡ none
    → session.key ≡ key
    → holds session.target sessions ≡ false
    → AreApart sessions
    → AreApart (insert key session sessions)
unfolding AreApart holds insert lookup
insert-AreApart key session [] e own new a = (own, refl, tt)
insert-AreApart key session ((k, other) ∷ rest) e own new a =
    ground (arith, holds-insert other.target key session rest, insert-AreApart key session rest)

pub holds_found :
    (key : String) (session : UdpSession) (sessions : Dict UdpSession)
    → lookup key sessions ≡ some session
    → holds session.target sessions ≡ true
unfolding holds lookup
holds_found key session [] e = absurd (ground (arith, e))
holds_found key session ((k, other) ∷ rest) e = ground (arith, holds_found key session rest)

pub holds-remove :
    (h : ℕ) (key : String) (session : UdpSession) (sessions : Dict UdpSession)
    → Distinct sessions
    → AreApart sessions
    → lookup key sessions ≡ some session
    → holds h (remove key sessions) ≡ (holds h sessions && not (eqb session.target h))
unfolding AreApart holds remove lookup
holds-remove h key session [] d a e = absurd (ground (arith, e))
holds-remove h key session ((k, other) ∷ rest) d a e = ground (
  arith,
  eq_iff k key,
  remove_missing key rest,
  holds_found key session rest,
  holds-remove h key session rest d.1 a.2,
)

pub remove-AreApart :
    (key : String) (session : UdpSession) (sessions : Dict UdpSession)
    → Distinct sessions
    → AreApart sessions
    → lookup key sessions ≡ some session
    → AreApart (remove key sessions)
unfolding AreApart holds remove lookup
remove-AreApart key session [] d a e = tt
remove-AreApart key session ((k, other) ∷ rest) d a e = ground (
  arith,
  eq_iff k key,
  remove_missing key rest,
  holds-remove other.target key session rest d.1 a.2,
  remove-AreApart key session rest d.1 a.2,
)

pub length-insert_new :
    (key : String) (session : UdpSession) (sessions : Dict UdpSession)
    → lookup key sessions ≡ none
    → length (insert key session sessions) ≡ length sessions + 1
unfolding insert lookup
length-insert_new key session [] e = omega arith
length-insert_new key session ((k, other) ∷ rest) e =
    ground (arith, length-insert_new key session rest)

pub length-remove :
    (key : String) (session : UdpSession) (sessions : Dict UdpSession)
    → Distinct sessions
    → lookup key sessions ≡ some session
    → length (remove key sessions) + 1 ≡ length sessions
unfolding remove lookup
length-remove key session [] d e = absurd (ground (arith, e))
length-remove key session ((k, other) ∷ rest) d e =
    ground (arith, eq_iff k key, remove_missing key rest, length-remove key session rest d.1)
