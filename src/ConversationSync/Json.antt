-- ===== src/ConversationSync/Json.antt =====
-- The JSON of a page, as `json.Marshal` writes the tagged structs of
-- server/sync/conversation/types.go.
use new_im.Common.{ℕ, Bool, true, false, List, [], ◌∷◌, ◌++◌, Option, none, some}
use new_im.Bytes.{Bytes}
use new_im.Bytes.Text.{text, decimal, json_string}
use new_im.ConversationSync.Types.{Item, ItemKind, upsert, remove, other, Page}

unfoldable pub kind_text : ItemKind → Bytes
kind_text upsert = text "upsert"
kind_text remove = text "remove"
kind_text (other t) = t

-- `omitempty`: a field that is nil is left out.
optional_field : {A : Type 0} → Bytes → (A → Bytes) → Option A → Bytes
optional_field name write none = []
optional_field name write (some a) = name ++ write a

-- `,string`: a number in quotes.
quoted : ℕ → Bytes
quoted n = json_string (decimal n)

unfoldable pub item_json : Item → Bytes
unfolding optional_field quoted
item_json item =
    text "{\"conversationId\":"
    ++ (json_string item.conversation_id
        ++ (text ",\"revision\":"
            ++ (quoted item.revision
                ++ (text ",\"kind\":"
                    ++ (json_string (kind_text item.kind)
                        ++ (optional_field (text ",\"latestConversationSeq\":") quoted
                              item.latest_conversation_seq
                            ++ (optional_field (text ",\"latestServerMsgId\":") json_string
                                  item.latest_server_msg_id
                                ++ text "}")))))))

-- The elements of a JSON array behind its first.
more_items : List Item → Bytes
more_items [] = []
more_items (i ∷ is) = text "," ++ (item_json i ++ more_items is)

items_json : List Item → Bytes
unfolding more_items
items_json [] = []
items_json (i ∷ is) = item_json i ++ more_items is

bool_json : Bool → Bytes
bool_json true = text "true"
bool_json false = text "false"

unfoldable pub page_json : Page → Bytes
unfolding items_json bool_json
page_json page =
    text "{\"items\":["
    ++ (items_json page.items
        ++ (text "],\"nextCursor\":"
            ++ (json_string page.next_cursor
                ++ (text ",\"hasMore\":" ++ (bool_json page.has_more ++ text "}")))))
