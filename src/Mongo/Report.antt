-- ===== src/Mongo/Report.antt =====
-- internal/replset/mongo.go: `MongoCandidateReport` and the order by which a primary is chosen.
use mongoctl.Prelude.{
  ℕ, ◌<◌, ◌≡◌, Bool, true, false, arith, Bytes, str_lt, ltb, ◌==◌, if◌then◌else◌, ℤ, ◌⊎◌,
  str_lt_irrefl, str_lt_trans, str_lt_total, str_lt_weak,
}
use mongoctl.Sorting.{IsStrictWeak}

pub record MongoCandidateReport : Type 0 where
  pub node_id : Bytes
  pub node_name : Bytes
  pub repl_set_id : Bytes
  pub repl_set_name : Bytes
  pub members : Bytes
  pub term : ℤ
  pub op_log_first_sec : ℕ
  pub op_log_first_inc : ℕ
  pub op_log_last_sec : ℕ
  pub op_log_last_inc : ℕ
  pub mongo_addr : Bytes
  pub mongo_port : Bytes

unfoldable pub less : MongoCandidateReport → MongoCandidateReport → Bool
less m o =
    if m.op_log_last_sec == o.op_log_last_sec
    then (if m.op_log_last_inc == o.op_log_last_inc
        then str_lt o.node_name m.node_name
        else ltb o.op_log_last_inc m.op_log_last_inc)
    else ltb o.op_log_last_sec m.op_log_last_sec

unfoldable get_id : MongoCandidateReport → Bytes
get_id m = m.node_id

pub less_irrefl : (m : MongoCandidateReport) → less m m ≡ false
unfolding less
less_irrefl m = ground (arith, str_lt_irrefl m.node_name)

pub less_trans :
    (m n o : MongoCandidateReport) → less m n ≡ true → less n o ≡ true → less m o ≡ true
unfolding less
less_trans m n o h k = ground (arith, str_lt_trans o.node_name n.node_name m.node_name)

-- Reports of which neither is less than the other have the same last operation and the same name.
pub less_total :
    (m o : MongoCandidateReport)
    → less m o ≡ false
    → less o m ≡ false
    → (m.op_log_last_sec ≡ o.op_log_last_sec)
      × (m.op_log_last_inc ≡ o.op_log_last_inc)
      × (m.node_name ≡ o.node_name)
unfolding less
less_total m o h k = ground (arith, str_lt_total m.node_name o.node_name)

pub less_weak :
    (m n o : MongoCandidateReport) → less m o ≡ true → (less m n ≡ true) ⊎ (less n o ≡ true)
unfolding less
less_weak m n o h = ground (arith, str_lt_weak o.node_name n.node_name m.node_name)

-- The order of the reports is irreflexive and transitive, and of two reports in order any third
-- comes after the first or before the second: what a sort asks for.
pub less-IsStrictWeak : IsStrictWeak less
less-IsStrictWeak = record { irrefl = less_irrefl; trans = less_trans; weak = less_weak }

-- The operation of `m` is not later than that of `p`: by its seconds, then by its increment; of two
-- that are the same, the name of `m` is not greater.
abbrev pub IsNoLater : MongoCandidateReport → MongoCandidateReport → Type 0
IsNoLater m p =
    (m.op_log_last_sec < p.op_log_last_sec)
    ⊎ ((m.op_log_last_sec ≡ p.op_log_last_sec)
        × ((m.op_log_last_inc < p.op_log_last_inc)
            ⊎ ((m.op_log_last_inc ≡ p.op_log_last_inc) × (str_lt p.node_name m.node_name ≡ false))))

pub less-IsNoLater : (m p : MongoCandidateReport) → less m p ≡ false → IsNoLater m p
unfolding less
less-IsNoLater m p h = ground arith
