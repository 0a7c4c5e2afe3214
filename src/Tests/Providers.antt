-- ===== src/Tests/Providers.antt =====
-- The theorems on the local provider at one provider and one request.
use semblend_vllm_connector.Prelude.{none, [], ◌∷◌}
use semblend_vllm_connector.Types.{SemanticLookupRequest}
use semblend_vllm_connector.Provider.{LocalSemanticProvider, lookup, register_donor}
use semblend_vllm_connector.Provider.Lookup.{IsHit, lookup-IsHit}
use semblend_vllm_connector.Provider.Kept.{IsKept, register_donor-IsKept}
use semblend_vllm_connector.Tests.Data.{ratio, donor, tokens}

abbrev provider : LocalSemanticProvider
provider = record {
  min_similarity = ratio 7 10;
  max_donors = 2;
  lookup_top_k = 5;
  donors = ("held", donor) ∷ [];
}

abbrev query : SemanticLookupRequest
query = record {
  request_id = "r1";
  token_ids = tokens;
  prompt_text = none;
  model_id = "model";
  namespace = "space";
  cache_salt = none;
  already_computed_tokens = 4;
}

lookup-IsHit_example : IsHit provider query (lookup provider query)
lookup-IsHit_example = lookup-IsHit provider query

register_donor-IsKept_example : IsKept donor provider (register_donor donor provider)
register_donor-IsKept_example = register_donor-IsKept donor provider
