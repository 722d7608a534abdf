-- ===== src/Json/Tests.antt =====
-- Runs of the canonical text.
use avorelo.Common.{◌≡◌, ◌≢◌, refl, true, text_lt, arith, eq_iff, String}
use avorelo.Json.{Json, null, bool, num, str, arr, obj, nil, cons, end, field, stable_stringify}
use avorelo.Json.Order.{fields, keep, swap, no_more, stable_stringify-Reordered}

abbrev inner : Json
inner = obj (field "z" (num 1207) (field "b" (str "a\"\n") end))

stringify_nested :
    stable_stringify
      (obj (field "k" (arr (cons null (cons inner nil))) (field "a" (bool true) end)))
    ≡ "{\"a\":true,\"k\":[null,{\"b\":\"a\\\"\\n\",\"z\":1207}]}"
unfolding stable_stringify text_lt
stringify_nested = refl

b_not_z : ◌≢◌ {A = String} "z" "b"
b_not_z = ground (arith, eq_iff "z" "b")

abbrev outer : Json → Json
outer v = obj (field "k" v end)

stable_stringify-Reordered_example :
    stable_stringify (outer (obj (field "z" null (field "b" (num 2) end))))
    ≡ stable_stringify (outer (obj (field "b" (num 2) (field "z" null end))))
stable_stringify-Reordered_example =
    stable_stringify-Reordered (fields (keep (fields (swap null (num 2) end b_not_z)) no_more))
