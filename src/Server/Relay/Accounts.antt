-- ===== src/Server/Relay/Accounts.antt =====
-- What a relay counts: the bytes that it has written, for the connection and in the totals.
use simple_forwarder.Prelude.{
  ℕ, ◌+◌, ◌%◌, ◌^◌, ◌≡◌, refl, sym, subst, ◌∙◌, Bool, true, false, arith, ==_refl, length,
}
use simple_forwarder.Stats.{TrafficStats}
use simple_forwarder.Tracker.State.{Tracker, add_u64}
use simple_forwarder.Server.Relay.Defs.{
  Direction, to_target, to_client, Copy, Relay, copy_of, opposite, count_stats, count_connection,
  account, count_write,
}

-- The counter of the connection, and the total, that a direction adds to.
abbrev pub connection_count : Direction → ℕ → Tracker → ℕ
connection_count to_target id t = t.bytes_sent id
connection_count to_client id t = t.bytes_received id

abbrev pub total_count : Direction → Bool → TrafficStats → ℕ
total_count to_target true s = s.direct_tx
total_count to_target false s = s.upstream_tx
total_count to_client true s = s.direct_rx
total_count to_client false s = s.upstream_rx

-- One direction, from these counts on: the bytes that have gone out are those counted and those of the
-- write under way.
pub record IsCounted (c0 s0 c s : ℕ) (k : Copy) : Type 0 where
  pub counted : ℕ
  pub all_out : counted + k.uncounted ≡ length k.output
  pub of_connection : c ≡ (c0 + counted) % 2 ^ 64
  pub of_total : s ≡ (s0 + counted) % 2 ^ 64

module _ (id : ℕ) (direct : Bool) (t0 : Tracker) (s0 : TrafficStats) where
  abbrev pub Counts : Direction → Tracker → TrafficStats → Copy → Type 0
  Counts d t s c =
      IsCounted (connection_count d id t0) (total_count d direct s0) (connection_count d id t)
        (total_count d direct s) c

  pub record Accounts (r : Relay) : Type 0 where
    pub same_id : r.conn_id ≡ id
    pub same_way : r.is_direct ≡ direct
    pub counts : (d : Direction) → Counts d r.tracker r.stats (copy_of d r)

  -- Counters that are as they were.
  pub keeps :
      (d : Direction) (t t' : Tracker) (s s' : TrafficStats) (c c' : Copy)
      → connection_count d id t' ≡ connection_count d id t
      → total_count d direct s' ≡ total_count d direct s
      → c' ≡ c
      → Counts d t s c
      → Counts d t' s' c'
  keeps d t t' s s' c c' e f g k = subst (Counts d t' s') (sym g) (record {
    counted = k.counted;
    all_out = k.all_out;
    of_connection = e ∙ k.of_connection;
    of_total = f ∙ k.of_total;
  })

  total-count_stats :
      (d : Direction) (n : ℕ) (s : TrafficStats)
      → total_count d direct (count_stats d direct n s) ≡ add_u64 (total_count d direct s) n
  total-count_stats d n s = go d direct
    where
      go :
          (d : Direction) (b : Bool)
          → total_count d b (count_stats d b n s) ≡ add_u64 (total_count d b s) n
      go to_target true = unfold count_stats in refl
      go to_target false = unfold count_stats in refl
      go to_client true = unfold count_stats in refl
      go to_client false = unfold count_stats in refl

  total-other :
      (d : Direction) (n : ℕ) (s : TrafficStats)
      → total_count (opposite d) direct (count_stats d direct n s)
        ≡ total_count (opposite d) direct s
  total-other d n s = go d direct
    where
      go :
          (d : Direction) (b : Bool)
          → total_count (opposite d) b (count_stats d b n s) ≡ total_count (opposite d) b s
      go to_target true = unfold count_stats in refl
      go to_target false = unfold count_stats in refl
      go to_client true = unfold count_stats in refl
      go to_client false = unfold count_stats in refl

  connection-count :
      (d : Direction) (n : ℕ) (t : Tracker)
      → connection_count d id (count_connection d id n t) ≡ add_u64 (connection_count d id t) n
  unfolding count_connection
  connection-count to_target n t = rw (==_refl id) refl
  connection-count to_client n t = rw (==_refl id) refl

  count_connection-other :
      (d : Direction) (n : ℕ) (t : Tracker)
      → connection_count (opposite d) id (count_connection d id n t)
        ≡ connection_count (opposite d) id t
  unfolding count_connection
  count_connection-other to_target n t = refl
  count_connection-other to_client n t = refl

  -- The write under way is over.
  counted_now :
      (d : Direction) (t : Tracker) (s : TrafficStats) (c : Copy)
      → Counts d t s c
      → Counts d
          (count_connection d id c.uncounted t)
          (count_stats d direct c.uncounted s)
          (record c { uncounted = 0 })
  counted_now d t s c k = record {
    counted = k.counted + c.uncounted;
    all_out = omega (arith, k.all_out);
    of_connection = omega (arith, connection-count d c.uncounted t, k.of_connection);
    of_total = omega (arith, total-count_stats d c.uncounted s, k.of_total);
  }

  pub count_write-Accounts : (d : Direction) (r : Relay) → Accounts r → Accounts (count_write d r)
  unfolding account
  count_write-Accounts to_target r a = record {
    same_id = a.same_id;
    same_way = a.same_way;
    counts = go;
  }
    where
      n : ℕ
      n = r.up.uncounted

      go :
          (e : Direction)
          → Counts e
              (count_connection to_target r.conn_id n r.tracker)
              (count_stats to_target r.is_direct n r.stats)
              (copy_of e (count_write to_target r))
      go to_target =
          rw (a.same_id, a.same_way)
            (counted_now to_target r.tracker r.stats r.up (a.counts to_target))
      go to_client =
          rw (a.same_id, a.same_way)
            (keeps to_client r.tracker (count_connection to_target id n r.tracker) r.stats
              (count_stats to_target direct n r.stats) r.down r.down
              (count_connection-other to_target n r.tracker) (total-other to_target n r.stats) refl
              (a.counts to_client))
  count_write-Accounts to_client r a = record {
    same_id = a.same_id;
    same_way = a.same_way;
    counts = go;
  }
    where
      n : ℕ
      n = r.down.uncounted

      go :
          (e : Direction)
          → Counts e
              (count_connection to_client r.conn_id n r.tracker)
              (count_stats to_client r.is_direct n r.stats)
              (copy_of e (count_write to_client r))
      go to_client =
          rw (a.same_id, a.same_way)
            (counted_now to_client r.tracker r.stats r.down (a.counts to_client))
      go to_target =
          rw (a.same_id, a.same_way)
            (keeps to_target r.tracker (count_connection to_client id n r.tracker) r.stats
              (count_stats to_client direct n r.stats) r.up r.up
              (count_connection-other to_client n r.tracker) (total-other to_client n r.stats) refl
              (a.counts to_target))
