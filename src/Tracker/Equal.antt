-- ===== src/Tracker/Equal.antt =====
-- `PartialEq` of connections: the fields that are shown, and the byte counts.
use simple_forwarder.Prelude.{ℕ, ◌≡◌, refl, ap, Bool, true, false, ◌&&◌, arith, ◌==◌, ==_refl}
use simple_forwarder.Text.{Bytes, eq_bytes, eq_bytes_iff}
use simple_forwarder.Tracker.Defs.{ConnStatus, connecting, connected, closed, error, ConnectionInfo}

unfoldable pub eq_status : ConnStatus → ConnStatus → Bool
eq_status connecting connecting = true
eq_status connected connected = true
eq_status closed closed = true
eq_status (error a) (error b) = eq_bytes a b
eq_status _ _ = false

-- The first two arguments are the counters of each connection at the time of the comparison. A copy of a
-- connection shares its counters with the original, so that both are read from the same place.
unfoldable pub eq_info : (ℕ → ℕ) → (ℕ → ℕ) → ConnectionInfo → ConnectionInfo → Bool
unfolding eq_status
eq_info bytes_sent bytes_received a b =
    a.id == b.id
    && (eq_bytes a.source_ip b.source_ip
        && (eq_bytes a.outbound_target b.outbound_target
            && (eq_bytes a.proxy_protocol b.proxy_protocol
                && (eq_bytes a.proxy b.proxy
                    && (eq_bytes a.start_time b.start_time
                        && (eq_status a.status b.status
                            && (bytes_sent a.id == bytes_sent b.id
                                && (bytes_received a.id == bytes_received b.id
                                    && eq_bytes a.exe_name b.exe_name))))))))

eq_status-eq : (a b : ConnStatus) → eq_status a b ≡ true → a ≡ b
unfolding eq_status
eq_status-eq connecting connecting h = refl
eq_status-eq connected connected h = refl
eq_status-eq closed closed h = refl
eq_status-eq (error a) (error b) h = ap error ((eq_bytes_iff a b).0 h)
eq_status-eq a b h = ground arith

-- What equal connections show alike.
pub record Alike (a b : ConnectionInfo) : Type 0 where
  pub source_ip : a.source_ip ≡ b.source_ip
  pub outbound_target : a.outbound_target ≡ b.outbound_target
  pub proxy_protocol : a.proxy_protocol ≡ b.proxy_protocol
  pub proxy : a.proxy ≡ b.proxy
  pub start_time : a.start_time ≡ b.start_time
  pub status : a.status ≡ b.status
  pub exe_name : a.exe_name ≡ b.exe_name

and_true : (a b : Bool) → (a && b) ≡ true → (a ≡ true) × (b ≡ true)
and_true a b h = ground arith

pub eq_info-Alike :
    (bytes_sent bytes_received : ℕ → ℕ) (a b : ConnectionInfo)
    → eq_info bytes_sent bytes_received a b ≡ true
    → Alike a b
unfolding eq_info
eq_info-Alike bytes_sent bytes_received a b h =
    let (_, h1) = and_true _ _ h in
    let (e1, h2) = and_true _ _ h1 in
    let (e2, h3) = and_true _ _ h2 in
    let (e3, h4) = and_true _ _ h3 in
    let (e4, h5) = and_true _ _ h4 in
    let (e5, h6) = and_true _ _ h5 in
    let (e6, h7) = and_true _ _ h6 in
    let (_, h8) = and_true _ _ h7 in
    let (_, e7) = and_true _ _ h8 in
    record {
      source_ip = (eq_bytes_iff _ _).0 e1;
      outbound_target = (eq_bytes_iff _ _).0 e2;
      proxy_protocol = (eq_bytes_iff _ _).0 e3;
      proxy = (eq_bytes_iff _ _).0 e4;
      start_time = (eq_bytes_iff _ _).0 e5;
      status = eq_status-eq _ _ e6;
      exe_name = (eq_bytes_iff _ _).0 e7;
    }

eq_bytes_refl : (a : Bytes) → eq_bytes a a ≡ true
eq_bytes_refl a = (eq_bytes_iff a a).1 refl

eq_status_refl : (a : ConnStatus) → eq_status a a ≡ true
unfolding eq_status
eq_status_refl connecting = refl
eq_status_refl connected = refl
eq_status_refl closed = refl
eq_status_refl (error a) = eq_bytes_refl a

-- A connection equals itself, whatever its counters have become.
pub eq_info_refl :
    (bytes_sent bytes_received : ℕ → ℕ) (a : ConnectionInfo)
    → eq_info bytes_sent bytes_received a a ≡ true
unfolding eq_info
eq_info_refl bytes_sent bytes_received a = rw (
  ==_refl a.id,
  eq_bytes_refl a.source_ip,
  eq_bytes_refl a.outbound_target,
  eq_bytes_refl a.proxy_protocol,
  eq_bytes_refl a.proxy,
  eq_bytes_refl a.start_time,
  eq_status_refl a.status,
  ==_refl (bytes_sent a.id),
  ==_refl (bytes_received a.id),
  eq_bytes_refl a.exe_name,
)
