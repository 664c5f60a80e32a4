-- ===== src/Server/Tokens/Bounds.antt =====
-- What the estimate of the tokens counts.
use free_claude_desktop.Prelude.{◌≡◌}
use free_claude_desktop.Json.{Fields, null, object, insert, get, get_str}
use free_claude_desktop.Json.Laws.{get_field-insert}
use free_claude_desktop.Server.Tokens.{block_char_count, text_field_chars}

-- The input of a tool call, which is an object, counts no more than none.
block_char_count-input :
    (fields input : Fields)
    → block_char_count (object (insert "input" (object input) fields))
      ≡ block_char_count (object (insert "input" null fields))
unfolding block_char_count text_field_chars get_str get
block_char_count-input fields input = simp (get_field-insert)
