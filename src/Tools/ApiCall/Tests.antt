-- ===== src/Tools/ApiCall/Tests.antt =====
-- Calls to a network that counts the requests it is sent.
use agentic_ai_tee.Base.{
  ℕ, ◌+◌, ◌≡◌, refl, true, false, none, some, List, [], ◌∷◌, Text, codes, none_value, end, text_eq,
  ends_with,
}
use agentic_ai_tee.Base.Result.{ok}
use agentic_ai_tee.Tools.ApiCall.{
  Url, Response, Net, Call, allowlist_of, api_call, is_domain_allowed, matches_domain,
}
use agentic_ai_tee.Tools.ApiCall.Laws.{Outcome, api_call-Outcome}

abbrev answered : Response
answered = record { status_code = 200; headers = end; text = codes "ok" }

abbrev url_of : Text → Url
url_of host = record { scheme = codes "https"; hostname = some host }

abbrev net : Net ℕ
net = record {
  upper = λ t. t;
  urlparse = λ t. ok (url_of t);
  show_set = λ ts. codes "{}";
  send = λ q n. (ok answered, n + 1);
}

abbrev call : Text → Call
call host = record {
  method = codes "GET";
  url = host;
  headers = none_value;
  body = none;
  timeout = some 30;
}

abbrev allowlist : List Text
allowlist = codes "good.org" ∷ []

api_call-Outcome_example :
    Outcome net allowlist
      (call (codes "api.good.org"))
      4
      (api_call net (some allowlist) (call (codes "api.good.org")) 4)
api_call-Outcome_example = api_call-Outcome net allowlist (call (codes "api.good.org")) 4

-- A domain below an allowed one passes, and one that only ends in the same letters does not.
domains :
    (is_domain_allowed (some allowlist) (url_of (codes "api.good.org")) ≡ true)
    × (is_domain_allowed (some allowlist) (url_of (codes "notgood.org")) ≡ false)
unfolding is_domain_allowed matches_domain text_eq ends_with
domains = (refl, refl)

-- A list without a domain allows every domain.
empty_list : is_domain_allowed (allowlist_of (some [])) (url_of (codes "anywhere.net")) ≡ true
unfolding is_domain_allowed allowlist_of
empty_list = refl
