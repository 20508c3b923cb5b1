-- ===== src/Tools/ApiCall.antt =====
-- enclave/tools/api_call.py: requests to the outside, through an allowlist of domains.
pub mod Laws
pub mod Tests
use agentic_ai_tee.Base.{
  ℕ, ◌*◌, decimal, Bool, true, false, ◌&&◌, ◌||◌, Option, none, some, List, [], ◌∷◌, ◌++◌, take,
  length, leb, ltb, if◌then◌else◌, ◌==◌, is_empty, Text, codes, text_eq, ends_with, one_of, any,
  Value, none_value, str, int, dict, pos, Fields, end, field, get_field, truthy, is_str,
}
use agentic_ai_tee.Base.Result.{Result, ok, err}
use agentic_ai_tee.Agent.Models.{ToolOutput, Exn, Stop, raised, cancelled}
use agentic_ai_tee.Tools.Args.{missing, not_a_string, check_filled}
use agentic_ai_tee.Tools.Router.{failure}

-- What `urlparse` finds in a URL.
pub record Url : Type 0 where
  pub scheme : Text
  pub hostname : Option Text

-- What is sent: the method, the URL, the headers, the body and the timeout in seconds.
pub record Request : Type 0 where
  pub method : Text
  pub url : Text
  pub headers : Value
  pub json : Option Fields
  pub content : Option Text
  pub timeout : ℕ

pub record Response : Type 0 where
  pub status_code : ℕ
  pub headers : Fields
  pub text : Text

-- The libraries: `str.upper`, `urlparse`, which may raise, the set that an error shows, and httpx over
-- the state `S` of the network.
pub record Net (S : Type 0) : Type 0 where
  pub upper : Text → Text
  pub urlparse : Text → Result Exn Url
  pub show_set : List Text → Text
  pub send : Request → S → Result Stop Response × S

abbrev pub max_response_bytes : ℕ
max_response_bytes = 50 * 1024

abbrev pub default_timeout : ℕ
default_timeout = 30

abbrev pub valid_methods : List Text
valid_methods =
    codes "GET"
    ∷ codes "POST"
    ∷ codes "PUT"
    ∷ codes "PATCH"
    ∷ codes "DELETE"
    ∷ codes "HEAD"
    ∷ codes "OPTIONS"
    ∷ []

-- `set(domain_allowlist) if domain_allowlist else None`
unfoldable pub allowlist_of : Option (List Text) → Option (List Text)
allowlist_of none = none
allowlist_of (some []) = none
allowlist_of (some (d ∷ ds)) = some (d ∷ ds)

-- One pass of the loop: the domain itself, or one below it.
unfoldable pub matches_domain : Text → Text → Bool
matches_domain domain allowed = text_eq domain allowed || ends_with domain (codes "." ++ allowed)

-- `parsed.hostname or ""`
abbrev pub domain_of : Url → Text
domain_of u = elim u.hostname [ none ↦ [] | some h ↦ h ]

-- `_is_domain_allowed` behind the parsing of the URL
unfoldable pub is_domain_allowed : Option (List Text) → Url → Bool
is_domain_allowed none u = true
is_domain_allowed (some allowlist) u = any (matches_domain (domain_of u)) allowlist

-- the arguments of a call, behind their validation
pub record Call : Type 0 where
  pub method : Text
  pub url : Text
  pub headers : Value
  pub body : Option Value
  pub timeout : Option ℕ

-- `min(kwargs.get("timeout", DEFAULT_TIMEOUT), 120)`
unfoldable pub capped : Option ℕ → ℕ
capped none = default_timeout
capped (some t) = if ltb 120 t then 120 else t

abbrev json_body : Option Value → Option Fields
json_body (some (dict d)) = some d
json_body _ = none

abbrev text_body : Option Value → Option Text
text_body (some (str t)) = some t
text_body _ = none

-- the body that is returned, cut off at 50 KB
unfoldable pub response_text : Text → Text
response_text t =
    if ltb max_response_bytes (length t)
    then take max_response_bytes t ++ codes "\n... (truncated)"
    else take max_response_bytes t

module _ {S : Type 0} (N : Net S) where
  -- `validate_args`; a method that is no text has no `upper`.
  unfoldable pub validate_api_call : Exn → Fields → Result Exn (Option Text)
  validate_api_call no_upper args = check_method (get_field args (codes "method"))
    where
      check_scheme : Result Exn Url → Result Exn (Option Text)
      check_scheme (err e) = err e
      check_scheme (ok u) =
          if one_of u.scheme (codes "http" ∷ codes "https" ∷ [])
          then ok none
          else ok
              (some (codes "URL scheme must be http or https, got '" ++ (u.scheme ++ codes "'")))

      check_url : Option Value → Result Exn (Option Text)
      check_url (some (str t)) =
          if is_empty t then ok (some (missing (codes "url"))) else check_scheme (N.urlparse t)
      check_url v = ok (check_filled (codes "url") v)

      check_method : Option Value → Result Exn (Option Text)
      check_method none = ok (some (missing (codes "method")))
      check_method (some (str t)) =
          if is_empty t
          then ok (some (missing (codes "method")))
          else if one_of (N.upper t) valid_methods
          then check_url (get_field args (codes "url"))
          else ok (
              some (
                codes "Invalid method '"
                ++ (t ++ (codes "'. Must be one of: " ++ N.show_set valid_methods))))
      check_method (some v) =
          if truthy v then err no_upper else ok (some (missing (codes "method")))

  abbrev pub request_of : Call → Request
  request_of c = record {
    method = N.upper c.method;
    url = c.url;
    headers = c.headers;
    json = json_body c.body;
    content = text_body c.body;
    timeout = capped c.timeout;
  }

  -- `result` and the output around it
  unfoldable pub response_output : Response → ToolOutput
  response_output r = record {
    success = leb 200 r.status_code && ltb r.status_code 400;
    result = dict (
        field (codes "status_code") (int (pos r.status_code)) (
          field (codes "headers") (dict r.headers)
            (field (codes "body") (str (response_text r.text)) end)));
    error = if leb 400 r.status_code then some (codes "HTTP " ++ decimal r.status_code) else none;
    latency_ms = 0;
  }

  abbrev hostname_text : Option Text → Text
  hostname_text none = codes "None"
  hostname_text (some h) = h

  unfoldable pub not_allowed : List Text → Url → Text
  not_allowed allowlist u =
      codes "Domain '"
      ++ (hostname_text u.hostname
          ++ (codes "' is not in the allowlist. Allowed domains: " ++ N.show_set allowlist))

  -- The request and what comes of it.
  unfoldable pub send_request : Request → S → Result Stop ToolOutput × S
  send_request q s =
      let (sent, s') = N.send q s in
      (
        elim sent [
          | ok r ↦ ok (response_output r)
          | err (raised e) ↦ ok (
              failure (codes "HTTP request failed: " ++ (e.type_name ++ (codes ": " ++ e.message)))
                0)
          | err cancelled ↦ err cancelled
        ],
        s',
      )

  -- The check of the allowlist behind the parsing of the URL, and then the request.
  unfoldable pub guarded : List Text → Call → Result Exn Url → S → Result Stop ToolOutput × S
  guarded allowlist c (err e) s = (err (raised e), s)
  guarded allowlist c (ok u) s =
      if is_domain_allowed (some allowlist) u
      then send_request (request_of c) s
      else (ok (failure (not_allowed allowlist u) 0), s)

  -- `run`: without an allowlist the URL is not even parsed.
  unfoldable pub api_call : Option (List Text) → Call → S → Result Stop ToolOutput × S
  api_call none c s = send_request (request_of c) s
  api_call (some allowlist) c s = guarded allowlist c (N.urlparse c.url) s
