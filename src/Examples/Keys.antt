-- ===== src/Examples/Keys.antt =====
-- API keys, with a bcrypt that keeps the key as its hash.
use flyrank_capstone_meterin.Prelude.{
  ◌≤◌, ◌≡◌, List, [], ◌∷◌, String, map, str_eq, length, if◌then◌else◌,
}
use flyrank_capstone_meterin.Result.{ok, err}
use flyrank_capstone_meterin.Errors.{external}
use flyrank_capstone_meterin.ApiKeys.{Bcrypt}
use flyrank_capstone_meterin.ApiKeys.Laws.{accepts, verify_all, verify_all_exact}

abbrev plain : Bcrypt
plain = record {
  checkpw =
      λ key hash. if str_eq hash "" then err (external "Invalid salt") else ok (str_eq key hash);
  hashpw = λ key salt. key;
}

abbrev calls : List (String × String)
calls = ("k1", "k1") ∷ ("k2", "k1") ∷ ("k1", "") ∷ ("k1", "k1") ∷ []

verify_all_exact_example :
    ((verify_all plain calls []).0 ≡ map (λ c. accepts (plain.checkpw c.0 c.1)) calls)
    × (length (verify_all plain calls []).1 ≤ 1000)
verify_all_exact_example = verify_all_exact plain calls
