-- ===== src/Server/Pagination/Tests.antt =====
-- Pages at concrete inputs.
use velocity_mcp.Base.{List, [], arith, drop, if◌then◌else◌, ltb, some, take, ℕ, ◌+◌, ◌<◌, ◌∷◌, ◌≡◌}
use velocity_mcp.Json.Number.{non_negative}
use velocity_mcp.Server.Pagination.{encode_cursor, paginate, start_offset}
use velocity_mcp.Server.Pagination.Cursor.{start_offset-encode_cursor}
use velocity_mcp.Server.Pagination.Walk.{paginate-slice, walk, walk_all}

abbrev three : List ℕ
three = 5 ∷ 6 ∷ 7 ∷ []

from_two : start_offset (encode_cursor 2) < 3
from_two = rw (start_offset-encode_cursor 2 (omega arith)) (omega arith)

paginate-slice_example :
    paginate three (non_negative 2) (encode_cursor 2)
    ≡ some (
      take 2 (drop (start_offset (encode_cursor 2)) three),
      if ltb (start_offset (encode_cursor 2) + 2) 3
          then encode_cursor (start_offset (encode_cursor 2) + 2)
          else [],
    )
paginate-slice_example =
    paginate-slice three 2 (encode_cursor 2) (omega arith) (omega arith) from_two

walk_all_example : walk 4 three (non_negative 2) [] ≡ some three
walk_all_example = walk_all three 2 (omega arith) (omega arith)
