-- ===== src/Mongo/Offline/Collected.antt =====
-- What a member collects: how often it tries, and what its report says of the stored configuration.
use mongoctl.Prelude.{
  Bytes, List, [], ◌∷◌, map, ◌≡◌, ◌≢◌, refl, ap, codes, str_eq-false, All, Outcome, ok, err, panic,
  Error, pos, negsuc, some,
}
use mongoctl.Text.Parts.{join}
use mongoctl.Mongo.Types.{Member, Replset, OpLog}
use mongoctl.Mongo.Report.{MongoCandidateReport}
use mongoctl.Mongo.Members.{parse_members, host_str}
use mongoctl.Mongo.Members.Laws.{IsDistinct, entries}
use mongoctl.Mongo.Members.Printed.{IsAddressed, parse_members-host_str}
use mongoctl.Mongo.Client.{Driver, repl_set_get_config_offline, get_oplog_window, has_user}
use mongoctl.Mongo.Status.{MongoConfig}
use mongoctl.Mongo.Member.{Host, wipe_db}
use mongoctl.Mongo.Offline.{
  Mongod, offline_mongod, mongod_args, bare_report, read_replset, ensure_admin, get_offline_status,
  collect, attempts, with_replset,
}

module _ {W : Type 0} (d : Driver W) (m : Mongod W) (node_id node_name : Bytes) (h : Host W)
    (cfg : MongoConfig) where
  -- Where both attempts fail, the database is wiped, with or without an error, and what the third
  -- attempt gives is what is collected.
  pub collect_after_wipe :
      (w w1 w2 w3 : W) (x y : Error) (z : Outcome (Unit {0}))
      → get_offline_status d m node_id node_name cfg w ≡ (err x, w1)
      → get_offline_status d m node_id node_name cfg w1 ≡ (err y, w2)
      → wipe_db h cfg.db_path w2 ≡ (z, w3)
      → z ≢ panic
      → collect d m node_id node_name h cfg w ≡ get_offline_status d m node_id node_name cfg w3
  unfolding collect attempts
  collect_after_wipe w w1 w2 w3 x y (ok _) first second wipe calm = rw (first, second, wipe)
  collect_after_wipe w w1 w2 w3 x y (err e) first second wipe calm = rw (first, second, wipe)
  collect_after_wipe w w1 w2 w3 x y panic first second wipe calm = absurd (calm refl)

  -- A mongod that cannot be reached is left running: the failed attempt ends in the world of the
  -- failed connection, with no shutdown after it.
  pub unreachable_stays :
      (w w1 w2 : W) (x : Error)
      → m.launch (mongod_args (offline_mongod cfg) []) w ≡ (ok tt, w1)
      → m.dial cfg.local_addr cfg.local_port w1 ≡ (err x, w2)
      → get_offline_status d m node_id node_name cfg w ≡ (err x, w2)
  unfolding get_offline_status
  unreachable_stays w w1 w2 x launched dialled = rw (launched, dialled)

  module _ (w w1 w2 w3 w4 w5 w6 w7 : W) (rs : Replset) (v : Member) (ms : List Member)
      (last first : OpLog) where
    -- A member that stores a configuration of its set is read by one mongod, which is stopped, and
    -- collected at the first attempt: the report carries the node's identifier, name and
    -- address, the set's identifier, name and term, and the first and last times of its oplog with
    -- their increments; its members are read back as those of the configuration, if their numbers are
    -- distinct int32 values and their hosts are an address and a port with no colon or comma.
    pub collected_report :
        m.launch (mongod_args (offline_mongod cfg) []) w ≡ (ok tt, w1)
        → m.dial cfg.local_addr cfg.local_port w1 ≡ (ok tt, w2)
        → m.ping w2 ≡ (ok tt, w3)
        → d.users_info (codes "admin") w3 ≡ (ok (some 1), w4)
        → d.find_replset cfg.rs_name w4 ≡ (ok rs, w5)
        → rs.id ≢ []
        → d.find_oplog (negsuc 0) w5 ≡ (ok last, w6)
        → d.find_oplog (pos 1) w6 ≡ (ok first, w7)
        → rs.members ≡ v ∷ ms
        → All IsAddressed (v ∷ ms)
        → IsDistinct (v ∷ ms)
        → (s : MongoCandidateReport) × (collect d m node_id node_name h cfg w ≡ (ok s, m.stop 3 w7))
          × (s.node_id ≡ node_id)
          × (s.node_name ≡ node_name)
          × (s.mongo_addr ≡ cfg.addr)
          × (s.mongo_port ≡ cfg.port)
          × (s.repl_set_id ≡ d.hex rs.settings.replica_set_id)
          × (s.repl_set_name ≡ rs.id)
          × (s.term ≡ rs.term)
          × (s.op_log_first_sec ≡ first.ts.t)
          × (s.op_log_first_inc ≡ first.ts.i)
          × (s.op_log_last_sec ≡ last.ts.t)
          × (s.op_log_last_inc ≡ last.ts.i)
          × (parse_members s.members ≡ entries (v ∷ ms))
    unfolding collect attempts get_offline_status has_user ensure_admin repl_set_get_config_offline
        read_replset get_oplog_window with_replset bare_report
    collected_report launched dialled pinged users found named l f members addressed distinct = (
      with_replset d (record { config = rs }) (first, last) (bare_report node_id node_name cfg),
      rw (launched, dialled, pinged, users, found, str_eq-false named, l, f),
      refl,
      refl,
      refl,
      refl,
      refl,
      refl,
      refl,
      refl,
      refl,
      refl,
      refl,
      rw (ap (λ l. join b',' (map host_str l)) members)
          (parse_members-host_str v ms addressed distinct),
    )
