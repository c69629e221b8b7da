-- ===== src/Mongo/Run/Keeping.antt =====
-- What the calls of a wipe keep: a predicate on the world goes through them where the host keeps it.
use mongoctl.Prelude.{
  List, [], ◌∷◌, Bytes, Bool-cases, inl, inr, Outcome, ok, err, panic, Io, ◌>>=◌, bind_with, handle,
  pure, abort,
}
use mongoctl.Mongo.Client.{Driver}
use mongoctl.Mongo.Status.{MongoConfig}
use mongoctl.Mongo.Primary.{RangeOrder}
use mongoctl.Mongo.Member.{Host, or_panic, is_exists, remove_entries, wipe_db, rebuild}

abbrev pub Keeps : {W A : Type 0} → (W → Type 0) → Io W A → Type 0
Keeps {W} P m = (w : W) → P w → P (m w).1

-- What a wipe asks of its host after the shutdown.
pub record HostKeeps {W : Type 0} (h : Host W) (P : W → Type 0) : Type 0 where
  pub stat_keeps : (path : Bytes) → Keeps P (h.stat path)
  pub read_keeps : (path : Bytes) → Keeps P (h.read_dir path)
  pub remove_keeps : (path : Bytes) → Keeps P (h.remove_all path)
  pub start_keeps : Keeps P h.start
  pub connect_keeps : Keeps P h.connect

module _ {W : Type 0} (P : W → Type 0) where
  pub bind-Keeps :
      {A B : Type 0} (m : Io W A) (f : A → Io W B)
      → Keeps P m
      → ((a : A) → Keeps P (f a))
      → Keeps P (m >>= f)
  bind-Keeps {A} {B} m f hm hf w p = after (m w) (hm w p)
    where
      after : (r : Outcome A × W) → P r.1 → P (bind_with r.0 f r.1).1
      after (ok a, w') q = hf a w' q
      after (err x, w') q = q
      after (panic, w') q = q

  pub or_panic-Keeps : (m : Io W Unit) → Keeps P m → Keeps P (or_panic m)
  or_panic-Keeps m hm w p = after (m w) (hm w p)
    where
      after : (r : Outcome Unit × W) → P r.1 → P (handle r.0 (λ e. abort) pure r.1).1
      after (ok a, w') q = q
      after (err x, w') q = q
      after (panic, w') q = q

module _ {W : Type 0} (h : Host W) (P : W → Type 0) (keeps : HostKeeps h P) where
  remove_entries-Keeps : (path : Bytes) (names : List Bytes) → Keeps P (remove_entries h path names)
  unfolding remove_entries
  remove_entries-Keeps path [] w p = p
  remove_entries-Keeps path (name ∷ names) w p =
      bind-Keeps P (h.remove_all (h.join_path path name)) (λ _. remove_entries h path names)
        (keeps.remove_keeps (h.join_path path name)) (λ _. remove_entries-Keeps path names) w p

  wipe_db-Keeps : (path : Bytes) → Keeps P (wipe_db h path)
  unfolding wipe_db
  wipe_db-Keeps path w p = elim (Bool-cases (is_exists (h.stat path w).0)) [
    | inl y ↦ rw y (
        bind-Keeps P (h.read_dir path) (remove_entries h path) (keeps.read_keeps path)
          (remove_entries-Keeps path) (h.stat path w).1 (keeps.stat_keeps path w p))
    | inr n ↦ rw n (keeps.stat_keeps path w p)
  ]

  pub rebuild-Keeps :
      (d : Driver W) (cfg : MongoConfig) (r r' r'' : RangeOrder) (w : W)
      → P (h.shutdown 10 w)
      → P (rebuild d h cfg r r' r'' w).1
  unfolding rebuild
  rebuild-Keeps d cfg r r' r'' w p =
      bind-Keeps P (or_panic (wipe_db h cfg.db_path))
        (λ _. or_panic h.start >>= λ _. or_panic h.connect)
        (or_panic-Keeps P (wipe_db h cfg.db_path) (wipe_db-Keeps cfg.db_path))
        (λ _.
          bind-Keeps P (or_panic h.start) (λ _. or_panic h.connect)
            (or_panic-Keeps P h.start keeps.start_keeps)
            (λ _. or_panic-Keeps P h.connect keeps.connect_keeps))
        (h.shutdown 10 w) p
