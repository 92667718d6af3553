-- ===== src/Resolver/Lookup.antt =====
-- What a lookup leaves in the caches.
use simple_forwarder.Prelude.{ℕ, ◌≡◌, refl, sym, ap, ◌∙◌, Option, some, List, ==_refl}
use simple_forwarder.Text.{Bytes}
use simple_forwarder.Resolver.Netstat.{Socket, lookup_port_to_pid}
use simple_forwarder.Resolver.Cache.{get, get-remove_key, get-evict-insert}
use simple_forwarder.Resolver.Defs.{
  ExeResolver, known_exe, unknown, consult, cache_pid, cache_exe, resolve_and_cache_pid, lookup,
  remove,
}

-- A port that has been removed is unknown to both caches.
pub consult-remove : (port : ℕ) (r : ExeResolver) → consult port (remove port r) ≡ unknown
unfolding consult remove
consult-remove port r =
    rw (get-remove_key port r.port_to_exe, consult)
      (rw (get-remove_key port r.port_to_pid, consult) refl)

-- The name is cached for a port whose process is still the one that was resolved.
pub cache_exe-current :
    (now remote_port pid : ℕ) (exe : Bytes) (r : ExeResolver)
    → get r.port_to_pid remote_port ≡ some pid
    → consult remote_port (cache_exe now remote_port pid exe r) ≡ known_exe exe
unfolding consult cache_exe
cache_exe-current now remote_port pid exe r e =
    rw (e, cache_exe)
      (rw (==_refl pid) (rw (get-evict-insert remote_port exe now r.port_to_exe, consult) refl))

-- A lookup that finds a name on a scan leaves it in the caches: the next lookup of the port gives it at
-- once, whatever the system answers then, and changes nothing.
pub lookup-twice :
    (exe_of exe_of' : ℕ → Option Bytes) (sockets sockets' : Option (List Socket))
    (now now' remote_port : ℕ) (r : ExeResolver) (exe : Bytes) (pid : ℕ)
    → consult remote_port r ≡ unknown
    → lookup_port_to_pid sockets r.listen_port remote_port ≡ some pid
    → exe_of pid ≡ some exe
    → ((lookup exe_of sockets now remote_port r).0 ≡ some exe)
      × (lookup exe_of' sockets' now' remote_port (lookup exe_of sockets now remote_port r).1
          ≡ (some exe, (lookup exe_of sockets now remote_port r).1))
unfolding lookup resolve_and_cache_pid
lookup-twice exe_of exe_of' sockets sockets' now now' remote_port r exe pid e f g = (
  ap (λ (x : Option Bytes × ExeResolver). x.0) found,
  ap (λ (x : ExeResolver). lookup exe_of' sockets' now' remote_port x)
        (ap (λ (x : Option Bytes × ExeResolver). x.1) found)
      ∙ again
      ∙ ap (λ (x : ExeResolver). (some exe, x))
          (sym (ap (λ (x : Option Bytes × ExeResolver). x.1) found)),
)
  where
    after : ExeResolver
    after = cache_exe now remote_port pid exe (cache_pid now remote_port pid r)

    found : lookup exe_of sockets now remote_port r ≡ (some exe, after)
    found = rw (e, lookup) (rw (f, lookup) (rw (g, resolve_and_cache_pid) refl))

    pid_cached : get (cache_pid now remote_port pid r).port_to_pid remote_port ≡ some pid
    pid_cached = unfold cache_pid in get-evict-insert remote_port pid now r.port_to_pid

    again : lookup exe_of' sockets' now' remote_port after ≡ (some exe, after)
    again =
        rw
          (
            cache_exe-current now remote_port pid exe (cache_pid now remote_port pid r) pid_cached,
            lookup,
          )
          refl
