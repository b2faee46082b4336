-- ===== src/Messaging/Message.antt =====
-- ACLMessage.hpp, AgentIdentifier.hpp and `createReply` of ACLMessage.cpp. A message is a value;
-- a setter is a record update.
use g_agent.Base.{String, List, [], ◌∷◌, ◌==◌, string_key, if◌then◌else◌}

pub record AgentIdentifier : Type 0 where
  pub name : String
  pub addresses : List String

-- `AgentIdentifier{n}` and `AgentIdentifier{}`
abbrev pub agent_id : String → AgentIdentifier
agent_id n = record { name = n; addresses = [] }

pub data Performative : Type 0 where
  accept_proposal agree cancel cfp confirm disconfirm failure inform inform_if inform_ref
        not_understood propagate propose proxy query_ref refuse reject_proposal request request_when
        request_whenever subscribe unknown :
      Performative

pub record AclMessage : Type 0 where
  pub performative : Performative
  pub sender : AgentIdentifier
  pub receivers : List AgentIdentifier
  pub content : String
  pub language : String
  pub encoding : String
  pub ontology : String
  pub protocol : String
  pub conversation_id : String
  pub reply_with : String
  pub in_reply_to : String

-- `ACLMessage(p)`
abbrev pub acl_message : Performative → AclMessage
acl_message p = record {
  performative = p;
  sender = agent_id "";
  receivers = [];
  content = "";
  language = "";
  encoding = "";
  ontology = "";
  protocol = "";
  conversation_id = "";
  reply_with = "";
  in_reply_to = "";
}

first_or_default : List AgentIdentifier → AgentIdentifier
first_or_default [] = agent_id ""
first_or_default (r ∷ rs) = r

unfoldable pub create_reply : Performative → AclMessage → AclMessage
unfolding first_or_default
create_reply p m = record (acl_message p) {
  sender = first_or_default m.receivers;
  receivers = m.sender ∷ [];
  language = m.language;
  ontology = m.ontology;
  protocol = m.protocol;
  conversation_id = m.conversation_id;
  in_reply_to = if m.reply_with == "" then "" else m.reply_with;
}
