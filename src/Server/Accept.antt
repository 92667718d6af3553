-- ===== src/Server/Accept.antt =====
-- `ProxyServer::run`: the accept loop, and the permits that bound the handlers.
use simple_forwarder.Prelude.{
  ℕ, ◌+◌, ◌-◌, ◌<◌, ◌≡◌, refl, Bool, true, false, List, [], ◌∷◌, ◌++◌, ◌⊎◌, inl, inr, Bool-cases,
  ltb→lt, ltb→le, arith, ltb, if◌then◌else◌, length, length-append, remove_at, length-remove_at,
}
use simple_forwarder.Net.Addr.{SocketAddr}

abbrev pub max_connections : ℕ
max_connections = 1024

pub record ProxyServer : Type 0 where
  -- the free permits of the semaphore
  pub permits : ℕ
  -- the clients whose handlers run, each with its permit, in the order in which they were accepted
  pub handlers : List SocketAddr
  -- the clients whose connection was dropped
  pub rejected : List SocketAddr
  -- `stats.traffic_active`
  pub traffic_active : Bool

unfoldable pub new_server : ProxyServer
new_server = record {
  permits = max_connections;
  handlers = [];
  rejected = [];
  traffic_active = false;
}

-- What `accept` gives, and a handler that ends, by its place, which returns its permit.
pub data Arrival : Type 0 where
  accepted : SocketAddr → Arrival
  accept_error : Arrival
  handler_ended : ℕ → Arrival

unfoldable pub accept : SocketAddr → ProxyServer → ProxyServer
accept peer s =
    if ltb 0 s.permits
    then record s {
      permits = s.permits - 1;
      handlers = s.handlers ++ peer ∷ [];
      traffic_active = true;
    }
    else record s { rejected = s.rejected ++ peer ∷ []; traffic_active = true }

unfoldable pub arrive : Arrival → ProxyServer → ProxyServer
unfolding accept
arrive (accepted peer) s = accept peer s
arrive accept_error s = s
arrive (handler_ended i) s =
    if ltb i (length s.handlers)
    then record s { permits = s.permits + 1; handlers = remove_at i s.handlers }
    else s

unfoldable pub serve_all : List Arrival → ProxyServer → ProxyServer
unfolding arrive
serve_all [] s = s
serve_all (a ∷ rest) s = serve_all rest (arrive a s)

abbrev IsBounded : ProxyServer → Type 0
IsBounded s = s.permits + length s.handlers ≡ max_connections

arrive-IsBounded : (a : Arrival) (s : ProxyServer) → IsBounded s → IsBounded (arrive a s)
unfolding arrive accept
arrive-IsBounded (accepted peer) s h = ground (arith, length-append s.handlers (peer ∷ []))
arrive-IsBounded accept_error s h = h
arrive-IsBounded (handler_ended i) s h = ground (arith, length-remove_at i s.handlers)

serve_all-IsBounded :
    (arrivals : List Arrival) (s : ProxyServer) → IsBounded s → IsBounded (serve_all arrivals s)
unfolding serve_all
serve_all-IsBounded [] s h = h
serve_all-IsBounded (a ∷ rest) s h = serve_all-IsBounded rest (arrive a s) (arrive-IsBounded a s h)

-- A client is served if fewer than 1024 handlers run, and dropped otherwise.
abbrev pub Admits : SocketAddr → ProxyServer → ProxyServer → Type 0
Admits peer s s' =
    ((length s.handlers < max_connections)
      × (s'.handlers ≡ s.handlers ++ peer ∷ [])
      × (s'.rejected ≡ s.rejected))
    ⊎ ((length s.handlers ≡ max_connections)
        × (s'.handlers ≡ s.handlers)
        × (s'.rejected ≡ s.rejected ++ peer ∷ []))

accept-Admits :
    (peer : SocketAddr) (s : ProxyServer) → IsBounded s → Admits peer s (arrive (accepted peer) s)
unfolding arrive accept
accept-Admits peer s h = elim (Bool-cases (ltb 0 s.permits)) [
  | inl free ↦ rw free (inl (omega (arith, ltb→lt _ _ free), refl, refl))
  | inr full ↦ rw full (inr (omega (arith, ltb→le _ _ full), refl, refl))
]

-- Whatever clients have come, accepts have failed and handlers have ended: permits and running handlers
-- are 1024 together, so that no more run and no permit is lost; and the next client is served
-- exactly if fewer than 1024 handlers run.
pub serve_all-Admits :
    (arrivals : List Arrival) (peer : SocketAddr)
    → ((serve_all arrivals new_server).permits + length (serve_all arrivals new_server).handlers
        ≡ max_connections)
      × Admits peer
          (serve_all arrivals new_server)
          (arrive (accepted peer) (serve_all arrivals new_server))
unfolding new_server
serve_all-Admits arrivals peer =
    let h = serve_all-IsBounded arrivals new_server (omega arith) in
    (h, accept-Admits peer (serve_all arrivals new_server) h)
