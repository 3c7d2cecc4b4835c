-- ===== src/Gds/Auth/Policies.antt =====
-- The policies of the agents as gds/app/agent_auth.py parses them. The file comes as JSON values: a
-- field holds `str()` of its value, and a field that is no list has no items.
use opcua_implementaion.Prelude.{
  String, Bool, true, ◌&&◌, not, Option, none, some, List, [], ◌∷◌, ◌++◌, ◌==◌, string_eq,
  if◌then◌else◌,
}
use opcua_implementaion.Prelude.Text.{strip, split}
use opcua_implementaion.Prelude.Dict.{Dict, put}

pub record AgentPolicy : Type 0 where
  pub token : String
  pub allow_trust_anchor : Bool
  pub allowed_trustlists : List (String × String)
  pub allowed_applications : List String
  pub owned_applications : List String

pub data TrustlistItem : Type 0 where
  text_item : String → TrustlistItem
  object_item : String → String → TrustlistItem
  other_item : TrustlistItem

-- An item of a list of applications; `none` is one that is no text.
abbrev pub ApplicationItem : Type 0
ApplicationItem = Option String

pub record PolicyObject : Type 0 where
  pub token : String
  pub allow_trust_anchor : Option Bool
  pub allowed_trustlists : List TrustlistItem
  pub allowed_applications : List ApplicationItem
  pub owned_applications : List ApplicationItem

pub data RawPolicy : Type 0 where
  text_policy : String → RawPolicy
  object_policy : PolicyObject → RawPolicy
  other_policy : RawPolicy

-- The payload: an object with an object `agents`, an object without one, or no object.
pub data Payload : Type 0 where
  with_agents flat : Dict String RawPolicy → Payload
  no_object : Payload

-- The pair that a text of two parts names.
abbrev pub pair_of : List String → List (String × String)
pair_of (zone ∷ role ∷ []) = (strip zone, strip role) ∷ []
pair_of _ = []

abbrev pub trustlist_pairs : TrustlistItem → List (String × String)
trustlist_pairs (text_item item) = pair_of (split 58 item)
trustlist_pairs (object_item zone role) =
    if not (strip zone == "") && not (strip role == "") then (strip zone, strip role) ∷ [] else []
trustlist_pairs other_item = []

unfoldable pub parse_allowed_trustlists : List TrustlistItem → List (String × String)
parse_allowed_trustlists [] = []
parse_allowed_trustlists (item ∷ items) = trustlist_pairs item ++ parse_allowed_trustlists items

unfoldable pub parse_allowed_applications : List ApplicationItem → List String
parse_allowed_applications [] = []
parse_allowed_applications (none ∷ items) = parse_allowed_applications items
parse_allowed_applications (some item ∷ items) =
    let rest = parse_allowed_applications items in
    if strip item == "" then rest else strip item ∷ rest

abbrev pub or_true : Option Bool → Bool
or_true none = true
or_true (some b) = b

unfoldable pub parse_single_policy : RawPolicy → Option AgentPolicy
parse_single_policy (text_policy raw) =
    if strip raw == ""
    then none
    else some (record {
      token = strip raw;
      allow_trust_anchor = true;
      allowed_trustlists = [];
      allowed_applications = [];
      owned_applications = [];
    })
parse_single_policy (object_policy raw) =
    if strip raw.token == ""
    then none
    else some (record {
      token = strip raw.token;
      allow_trust_anchor = or_true raw.allow_trust_anchor;
      allowed_trustlists = parse_allowed_trustlists raw.allowed_trustlists;
      allowed_applications = parse_allowed_applications raw.allowed_applications;
      owned_applications = parse_allowed_applications raw.owned_applications;
    })
parse_single_policy other_policy = none

abbrev pub keep_parsed :
    String → Option AgentPolicy → Dict String AgentPolicy → Dict String AgentPolicy
keep_parsed agent_id none out = out
keep_parsed agent_id (some policy) out = put agent_id policy out

-- The loop over the agents of the file.
unfoldable pub parse_agents :
    Dict String RawPolicy → Dict String AgentPolicy → Dict String AgentPolicy
parse_agents [] out = out
parse_agents ((agent_id, raw) ∷ agents) out =
    if strip agent_id == ""
    then parse_agents agents out
    else parse_agents agents (keep_parsed (strip agent_id) (parse_single_policy raw) out)

unfoldable pub parse_policies : Payload → Dict String AgentPolicy
parse_policies (with_agents agents) = parse_agents agents []
parse_policies (flat agents) = parse_agents agents []
parse_policies no_object = []
