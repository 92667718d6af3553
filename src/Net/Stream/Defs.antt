-- ===== src/Net/Stream/Defs.antt =====
-- The bytes still to come stand in segments, as they arrive: one read returns bytes of one segment.
use simple_forwarder.Prelude.{
  ℕ, zero, suc, Bool, true, false, Option, none, some, List, [], ◌∷◌, ◌++◌, if◌then◌else◌, take,
  drop,
}
use simple_forwarder.Text.{Bytes}
use simple_forwarder.Net.Addr.{SocketAddr}
use simple_forwarder.Net.Error.{Error, unexpected_eof, connection_reset}

-- What comes behind the last byte: the peer has closed, the connection breaks, or nothing ever.
pub data Ending : Type 0 where
  closed reset stalled : Ending

pub record Stream : Type 0 where
  pub incoming : List Bytes
  pub ending : Ending
  pub sent : Bytes
  -- whether the peer takes what is written
  pub writable : Bool
  -- `local_addr().ok()`
  pub local_addr : Option SocketAddr

-- A handler returns, fails, or waits for a byte that never comes, and leaves the stream behind.
pub data Res {ℓ} (A : Type ℓ) : Type ℓ where
  ok : A → Stream → Res A
  err : Error → Stream → Res A
  hang : Stream → Res A

abbrev pub M {ℓ} : Type ℓ → Type ℓ
M A = Stream → Res A

infixl 5 ◌>>=◌ ◌>>◌
abbrev pub bind {ℓ κ} : {A : Type ℓ} {B : Type κ} → Res A → (A → M B) → Res B
bind (ok a s) f = f a s
bind (err e s) f = err e s
bind (hang s) f = hang s

abbrev pub ◌>>=◌ {ℓ κ} : {A : Type ℓ} {B : Type κ} → M A → (A → M B) → M B
◌>>=◌ m f s = bind (m s) f

abbrev pub ◌>>◌ {ℓ κ} : {A : Type ℓ} {B : Type κ} → M A → M B → M B
m >> k = m >>= λ _. k

abbrev pub pure {ℓ} : {A : Type ℓ} → A → M A
pure a s = ok a s

abbrev pub fail {ℓ} : {A : Type ℓ} → Error → M A
fail e s = err e s

-- An early return with an error unless the test holds.
abbrev pub require : Bool → Error → M (Unit {0})
require true e = pure tt
require false e = fail e

-- `let _ = …`: an error is dropped.
abbrev pub ignore {ℓ} : {A : Type ℓ} → Res A → Res (Unit {0})
ignore (ok a s) = ok tt s
ignore (err e s) = ok tt s
ignore (hang s) = hang s

-- The first segment that holds a byte, and the segments behind it.
unfoldable pub arrival : List Bytes → Option (Bytes × List Bytes)
arrival [] = none
arrival ([] ∷ segs) = arrival segs
arrival ((c ∷ s) ∷ segs) = some (c ∷ s, segs)

-- A read with nothing left.
unfoldable pub at_end : Stream → Res Bytes
at_end s = elim s.ending [ closed ↦ ok [] s | reset ↦ err connection_reset s | stalled ↦ hang s ]

-- `stream.read(&mut temp)` with room for n bytes; no byte means that the peer has closed.
unfoldable pub read : ℕ → M Bytes
unfolding arrival at_end
read n s = elim (arrival s.incoming) [
  | none ↦ at_end s
  | some (seg, segs) ↦ ok (take n seg) (record s { incoming = drop n seg ∷ segs })
]

-- The first n bytes, over as many segments as they take, and the segments behind them.
unfoldable pub take_bytes : ℕ → List Bytes → Option (Bytes × List Bytes)
take_bytes zero segs = some ([], segs)
take_bytes (suc n) [] = none
take_bytes (suc n) ([] ∷ segs) = take_bytes (suc n) segs
take_bytes (suc n) ((c ∷ s) ∷ segs) = elim (take_bytes n (s ∷ segs)) [
  | none ↦ none
  | some (b, rest) ↦ some (c ∷ b, rest)
]

-- `read_exact` when the bytes run out.
unfoldable pub cut_off : Stream → Res Bytes
cut_off s = elim s.ending [
  | closed ↦ err unexpected_eof (record s { incoming = [] })
  | reset ↦ err connection_reset (record s { incoming = [] })
  | stalled ↦ hang (record s { incoming = [] })
]

-- `stream.read_exact(&mut buf)` for n bytes.
unfoldable pub read_exact : ℕ → M Bytes
unfolding take_bytes cut_off
read_exact n s = elim (take_bytes n s.incoming) [
  | none ↦ cut_off s
  | some (b, segs) ↦ ok b (record s { incoming = segs })
]

-- `stream.write_all(&buf)`
unfoldable pub write_all : Bytes → M (Unit {0})
write_all b s =
    if s.writable then ok tt (record s { sent = s.sent ++ b }) else err connection_reset s

-- All the bytes still to come.
unfoldable pub unread : List Bytes → Bytes
unread [] = []
unread (seg ∷ segs) = seg ++ unread segs
