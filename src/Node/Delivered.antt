-- ===== src/Node/Delivered.antt =====
-- A node that gets the files that the webhook has computed for its Shoot.
use gardener_extension_shoot.Common.{Option, none, some, ◌≡◌, Text}
use gardener_extension_shoot.Gardener.{Shoot}
use gardener_extension_shoot.Osc.Files.{File, FileContent, inline, Library}
use gardener_extension_shoot.Node.{Contents, Node}

-- The agent that writes the files of the OSC to a node, and decodes what the webhook encodes.
pub record Agent (library : Library) : Type 0 where
  pub written : FileContent → Option Text
  pub decodes : (text : Text) → written (inline "b64" (library.encode_base64 text)) ≡ some text

abbrev pub written_file : {library : Library} → Agent library → Option File → Option Text
written_file agent none = none
written_file agent (some f) = agent.written f.content
