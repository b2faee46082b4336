-- ===== src/Messaging/Text/Printer.antt =====
-- `agentIdToString` and `ACLMessage::toString` of src/messaging/ACLMessage.cpp.
pub mod Scanning
pub mod Lines
pub mod Clean
use Prim.Native.String.{◌++◌}
use g_agent.Base.{String, List, [], ◌∷◌, ◌==◌, string_key, if◌then◌else◌}
use g_agent.Messaging.Message.{AgentIdentifier, AclMessage}
use g_agent.Messaging.Performatives.{performative_to_string}
use g_agent.Messaging.Quoting.{escape_string}

-- The loop over `aid.addresses`, in front of what is written next.
unfoldable pub address_items : List String → String → String
address_items [] rest = rest
address_items (a ∷ more) rest = " " ++ (a ++ address_items more rest)

unfoldable pub address_part : List String → String → String
unfolding address_items
address_part [] rest = rest
address_part (a ∷ more) rest = " :addresses (sequence" ++ address_items (a ∷ more) (")" ++ rest)

unfoldable pub agent_id_to_string : AgentIdentifier → String → String
unfolding address_part
agent_id_to_string aid rest =
    "(agent-identifier :name " ++ (aid.name ++ address_part aid.addresses (")" ++ rest))

unfoldable pub sender_line : AgentIdentifier → String → String
unfolding agent_id_to_string
sender_line aid rest =
    if aid.name == "" then rest else " :sender " ++ agent_id_to_string aid ("\n" ++ rest)

-- The loop over `receivers_`.
unfoldable pub receiver_lines : List AgentIdentifier → String → String
unfolding agent_id_to_string
receiver_lines [] rest = rest
receiver_lines (r ∷ rs) rest =
    " :receiver " ++ agent_id_to_string r ("\n" ++ receiver_lines rs rest)

unfoldable pub content_line : String → String → String
unfolding escape_string
content_line c rest = if c == "" then rest else " :content " ++ (escape_string c ++ ("\n" ++ rest))

-- A parameter whose value is written as it is.
unfoldable pub word_line : String → String → String → String
word_line label v rest = if v == "" then rest else label ++ (v ++ ("\n" ++ rest))

unfoldable pub to_string : AclMessage → String
unfolding performative_to_string sender_line receiver_lines content_line word_line
to_string m =
    "("
    ++ (performative_to_string m.performative
        ++ ("\n"
            ++ sender_line m.sender (
                receiver_lines m.receivers (
                  content_line m.content (
                    word_line " :language " m.language (
                      word_line " :encoding " m.encoding (
                        word_line " :ontology " m.ontology (
                          word_line " :protocol " m.protocol (
                            word_line " :conversation-id " m.conversation_id (
                              word_line " :reply-with " m.reply_with
                                (word_line " :in-reply-to " m.in_reply_to ")")))))))))))
