-- ===== src/Server/Patterns.antt =====
-- The subscriptions of zccp_server.c.
use zccp.Base.{Bool, false, List, [], ◌∷◌, ◌++◌, ◌==◌, ◌||◌, streq, if◌then◌else◌}
use zccp.Czmq.{Str}
use zccp.Server.{Pattern, Ptr}

-- Is the pointer among those of the list?
unfoldable pub contains : Ptr → List Ptr → Bool
contains p [] = false
contains p (q ∷ qs) = q == p || contains p qs

-- What client_terminate relies on of zlist_remove of CZMQ: the first item that is the pointer goes.
unfoldable pub remove : Ptr → List Ptr → List Ptr
remove p [] = []
remove p (q ∷ qs) = if q == p then qs else q ∷ remove p qs

unfoldable pub s_pattern_new : Str → Ptr → Pattern
s_pattern_new expression client = record { expression = expression; clients = client ∷ [] }

-- The inner loop of store_new_subscription, and the append behind it.
unfoldable pub add_client : Ptr → Pattern → Pattern
unfolding contains
add_client self pattern =
    if contains self pattern.clients
    then pattern
    else record pattern { clients = pattern.clients ++ self ∷ [] }

-- The loop of store_new_subscription over the patterns: it stops at the first one with the
-- expression, and behind the last one it appends a new pattern.
unfoldable pub store : Ptr → Str → List Pattern → List Pattern
unfolding add_client s_pattern_new
store self expression [] = s_pattern_new expression self ∷ []
store self expression (pattern ∷ patterns) =
    if streq pattern.expression expression
    then add_client self pattern ∷ patterns
    else pattern ∷ store self expression patterns

-- The loop of client_terminate.
unfoldable pub drop_client : Ptr → List Pattern → List Pattern
unfolding remove
drop_client self [] = []
drop_client self (x ∷ xs) = record x { clients = remove self x.clients } ∷ drop_client self xs
