-- ===== src/Semver/Examples.antt =====
-- A version with metadata.
use bfe.Common.{refl, arith, [], ◌∷◌, ◌≡◌, ◌↔◌, codes}
use bfe.Semver.{Version, ok, parse, to_string}
use bfe.Semver.RoundTrip.{IsVersion, parse-to_string}
use bfe.Semver.Reads.{Reads, parse_iff_Reads}

abbrev beta : Version
beta = record {
  major = 1;
  minor = 20;
  patch = 3;
  blank = b'-' ∷ [];
  build_metadata = codes "b.1+x";
}

beta_text : to_string beta ≡ codes "1.20.3-b.1+x"
unfolding to_string
beta_text = refl

beta-IsVersion : IsVersion beta
unfolding IsVersion
beta-IsVersion = (omega arith, omega arith, omega arith, refl)

beta_parsed : parse (codes "1.20.3-b.1+x") ≡ ok beta
unfolding parse
beta_parsed = refl

parse-to_string_example : parse (to_string beta) ≡ ok beta
parse-to_string_example = parse-to_string beta beta-IsVersion

parse_iff_Reads_example :
    (parse (codes "1.20.3-b.1+x") ≡ ok beta) ↔ Reads (codes "1.20.3-b.1+x") beta
parse_iff_Reads_example = parse_iff_Reads (codes "1.20.3-b.1+x") beta
