-- ===== src/Examples/Members.antt =====
-- The order of the reports and the printed members.
use mongoctl.Prelude.{[], ◌∷◌, map, ◌≡◌, refl, arith}
use mongoctl.Text.Parts.{join}
use mongoctl.Mongo.Members.{parse_members, host_str}
use mongoctl.Mongo.Members.Laws.{entries}
use mongoctl.Mongo.Members.Printed.{
  member_of, parse_members-generate_repl_config, parse_members-host_str,
}
use mongoctl.Examples.Data.{
  first, second, first-IsPrintable, second-IsPrintable, two_spec, made_two, IsDistinct-two,
  member_at, member_at-IsAddressed,
}

parse_members-generate_repl_config_example :
    parse_members two_spec.members ≡ entries (map member_of (first ∷ second ∷ []))
parse_members-generate_repl_config_example =
    parse_members-generate_repl_config (first ∷ second ∷ [])
      (first-IsPrintable, (second-IsPrintable, tt)) IsDistinct-two made_two

parse_members-host_str_example :
    parse_members (join b',' (map host_str (member_at 1 ∷ member_at 2 ∷ [])))
    ≡ entries (member_at 1 ∷ member_at 2 ∷ [])
parse_members-host_str_example =
    parse_members-host_str (member_at 1) (member_at 2 ∷ [])
      (member_at-IsAddressed 1 (omega arith), (member_at-IsAddressed 2 (omega arith), tt))
      ((refl, tt), (tt, tt))
