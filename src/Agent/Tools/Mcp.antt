-- ===== src/Agent/Tools/Mcp.antt =====
-- packages/agent/src/tools/mcp-tool.ts: a tool of an MCP server as a tool of the gateway. The client
-- is a parameter; the input of a call is its fields if it is an object, and `none` otherwise.
use workspace_os.Base.{
  String, Bool, false, List, Option, Result, ok, err, if◌then◌else◌, or_else, ◌==◌,
}
use workspace_os.Agent.Model.Anthropic.{ContentBlock, text_blocks, join}
use workspace_os.Agent.Tools.Gateway.{Dict, Tool}

pub record McpCallToolParams (Fields : Type 0) : Type 0 where
  pub name : String
  pub arguments : Fields

pub record McpCallToolResult : Type 0 where
  pub content : List ContentBlock
  pub is_error : Option Bool

pub record McpToolOptions : Type 0 where
  pub name : String
  pub server_tool_name : String
  pub action : Option String
  pub required_secrets : Option (List String)

-- What the client rejects with is passed on.
pub data McpFailure (Failure : Type 0) : Type 0 where
  tool_error : String → String → McpFailure Failure
  client_failed : Failure → McpFailure Failure

-- `text || "unknown error"`
abbrev pub error_message : String → String
error_message text = if text == "" then "unknown error" else text

module _ {Fields Failure : Type 0} (no_fields : Fields)
    (client : McpCallToolParams Fields → Result Failure McpCallToolResult) where
  unfoldable pub answer_of : McpToolOptions → McpCallToolResult → Result (McpFailure Failure) String
  answer_of options result =
      let text = join "" (text_blocks result.content) in
      if or_else result.is_error false
      then err (tool_error options.name (error_message text))
      else ok text

  unfoldable pub invoke_mcp :
      McpToolOptions → Option Fields → Dict → Result (McpFailure Failure) String
  invoke_mcp options input credentials =
      elim (client
        (record { name = options.server_tool_name; arguments = or_else input no_fields })) [
          | err e ↦ err (client_failed e)
          | ok result ↦ answer_of options result
        ]

  unfoldable pub mcp_tool : McpToolOptions → Tool (Option Fields) String (McpFailure Failure)
  mcp_tool options = record {
    name = options.name;
    action = options.action;
    required_secrets = options.required_secrets;
    invoke = invoke_mcp options;
  }
