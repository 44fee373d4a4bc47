-- ===== src/Editor/Chips.antt =====
-- src/app/advanced_query.rs: the chips of the plain filters. A chip has the filter's name in place
-- of its translated label and of the function that clears it.
use base_search.Prelude.{String, List, [], ◌∷◌, if◌then◌else◌}
use base_search.Prelude.Texts.{Unicode, trimmed, is_empty}
use base_search.Plan.Filters.{Filters}

pub data FilterName : Type 0 where
  year product_code edrpou trademark sender recipient description : FilterName
  trade_country dispatch_country origin_country : FilterName

unfoldable pub value_of : FilterName → Filters → String
value_of FilterName.year f = f.year
value_of FilterName.product_code f = f.product_code
value_of FilterName.edrpou f = f.edrpou
value_of FilterName.trademark f = f.trademark
value_of FilterName.sender f = f.sender
value_of FilterName.recipient f = f.recipient
value_of FilterName.description f = f.description
value_of FilterName.trade_country f = f.trade_country
value_of FilterName.dispatch_country f = f.dispatch_country
value_of FilterName.origin_country f = f.origin_country

-- The functions `clear_filter_year` to `clear_filter_origin_country`.
unfoldable pub clear_filter : FilterName → Filters → Filters
clear_filter FilterName.year f = record f { year = "" }
clear_filter FilterName.product_code f = record f { product_code = "" }
clear_filter FilterName.edrpou f = record f { edrpou = "" }
clear_filter FilterName.trademark f = record f { trademark = "" }
clear_filter FilterName.sender f = record f { sender = "" }
clear_filter FilterName.recipient f = record f { recipient = "" }
clear_filter FilterName.description f = record f { description = "" }
clear_filter FilterName.trade_country f = record f { trade_country = "" }
clear_filter FilterName.dispatch_country f = record f { dispatch_country = "" }
clear_filter FilterName.origin_country f = record f { origin_country = "" }

abbrev filter_names : List FilterName
filter_names =
    FilterName.year ∷ FilterName.product_code ∷ FilterName.edrpou ∷ FilterName.trademark
    ∷ FilterName.sender ∷ FilterName.recipient ∷ FilterName.description ∷ FilterName.trade_country
    ∷ FilterName.dispatch_country ∷ FilterName.origin_country ∷ []

-- `push_filter_chip`, for each name of a list.
unfoldable pub filter_chips : Unicode → Filters → List FilterName → List (FilterName × String)
filter_chips u f [] = []
filter_chips u f (name ∷ names) =
    let rest = filter_chips u f names in
    if is_empty (trimmed u (value_of name f))
    then rest
    else (name, trimmed u (value_of name f)) ∷ rest

unfoldable pub flat_filter_chips : Unicode → Filters → List (FilterName × String)
flat_filter_chips u f = filter_chips u f filter_names
