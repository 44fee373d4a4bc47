-- ===== src/Values/Countries.antt =====
-- src/storage/normalize.rs: the key under which country names are compared, and the labels of
-- groups.
use base_search.Prelude.{String, List, [], ◌∷◌, if◌then◌else◌}
use base_search.Prelude.Texts.{Unicode, trimmed, is_empty, keep_chars, flat_map, one_of}

-- The names that mean no country.
unfoldable pub no_country : List String
no_country = "0" ∷ "00" ∷ "000" ∷ "NA" ∷ "NODATA" ∷ "ND" ∷ "НД" ∷ "НЕМАДАНИХ" ∷ "НЕТДАННЫХ" ∷ []

-- The names of a country, and its code.
unfoldable pub country_codes : List (List String × String)
country_codes =
    ("CN" ∷ "CHN" ∷ "CHINA" ∷ "КИТАЙ" ∷ [], "CN")
    ∷ ("IE" ∷ "IRL" ∷ "IRELAND" ∷ "ІРЛАНДІЯ" ∷ "ИРЛАНДИЯ" ∷ [], "IE")
    ∷ ("PL" ∷ "POL" ∷ "POLAND" ∷ "ПОЛЬЩА" ∷ "ПОЛЬША" ∷ [], "PL")
    ∷ (
      "CZ" ∷ "CZE" ∷ "CZECHIA" ∷ "CZECHREPUBLIC" ∷ "ЧЕСЬКАРЕСПУБЛІКА" ∷ "ЧЕХІЯ"
          ∷ "ЧЕШСКАЯРЕСПУБЛИКА" ∷ "ЧЕХИЯ" ∷ [],
      "CZ",
    )
    ∷ ("DE" ∷ "DEU" ∷ "GERMANY" ∷ "НІМЕЧЧИНА" ∷ "ГЕРМАНІЯ" ∷ "ГЕРМАНИЯ" ∷ [], "DE")
    ∷ (
      "US" ∷ "USA" ∷ "UNITEDSTATES" ∷ "UNITEDSTATESOFAMERICA" ∷ "СПОЛУЧЕНІШТАТИАМЕРИКИ" ∷ "США"
          ∷ "СОЕДИНЕННЫЕШТАТЫАМЕРИКИ" ∷ [],
      "US",
    )
    ∷ ("VN" ∷ "VNM" ∷ "VIETNAM" ∷ "ВЄТНАМ" ∷ "ВЕТНАМ" ∷ [], "VN")
    ∷ ("EU" ∷ "EUROPEANUNION" ∷ "КРАЇНИЄС" ∷ "СТРАНЫЕС" ∷ [], "EU")
    ∷ (
      "KR" ∷ "KOR" ∷ "SOUTHKOREA" ∷ "REPUBLICOFKOREA" ∷ "ПІВДЕННАКОРЕЯ" ∷ "КОРЕЯРЕСПУБЛІКА"
          ∷ "ЮЖНАЯКОРЕЯ" ∷ [],
      "KR",
    )
    ∷ ("TR" ∷ "TUR" ∷ "TURKEY" ∷ "TURKIYE" ∷ "ТУРЕЧЧИНА" ∷ "ТУРЦІЯ" ∷ "ТУРЦИЯ" ∷ [], "TR")
    ∷ ("IN" ∷ "IND" ∷ "INDIA" ∷ "ІНДІЯ" ∷ "ИНДИЯ" ∷ [], "IN")
    ∷ ("IT" ∷ "ITA" ∷ "ITALY" ∷ "ІТАЛІЯ" ∷ "ИТАЛИЯ" ∷ [], "IT")
    ∷ ("BE" ∷ "BEL" ∷ "BELGIUM" ∷ "БЕЛЬГІЯ" ∷ "БЕЛЬГИЯ" ∷ [], "BE")
    ∷ ("NL" ∷ "NLD" ∷ "NETHERLANDS" ∷ "НІДЕРЛАНДИ" ∷ "НИДЕРЛАНДЫ" ∷ [], "NL")
    ∷ ("FR" ∷ "FRA" ∷ "FRANCE" ∷ "ФРАНЦІЯ" ∷ "ФРАНЦИЯ" ∷ [], "FR")
    ∷ (
      "GB" ∷ "UK" ∷ "GBR" ∷ "GREATBRITAIN" ∷ "UNITEDKINGDOM" ∷ "ВЕЛИКАБРИТАНІЯ" ∷ "ВЕЛИКОБРИТАНІЯ"
          ∷ "ВЕЛИКОБРИТАНИЯ" ∷ [],
      "GB",
    )
    ∷ ("ES" ∷ "ESP" ∷ "SPAIN" ∷ "ІСПАНІЯ" ∷ "ИСПАНИЯ" ∷ [], "ES")
    ∷ ("CH" ∷ "CHE" ∷ "SWITZERLAND" ∷ "ШВЕЙЦАРІЯ" ∷ "ШВЕЙЦАРИЯ" ∷ [], "CH")
    ∷ ("AT" ∷ "AUT" ∷ "AUSTRIA" ∷ "АВСТРІЯ" ∷ "АВСТРИЯ" ∷ [], "AT")
    ∷ ("FI" ∷ "FIN" ∷ "FINLAND" ∷ "ФІНЛЯНДІЯ" ∷ "ФИНЛЯНДИЯ" ∷ [], "FI")
    ∷ ("LV" ∷ "LVA" ∷ "LATVIA" ∷ "ЛАТВІЯ" ∷ "ЛАТВИЯ" ∷ [], "LV")
    ∷ ("LT" ∷ "LTU" ∷ "LITHUANIA" ∷ "ЛИТВА" ∷ [], "LT")
    ∷ ("EE" ∷ "EST" ∷ "ESTONIA" ∷ "ЕСТОНІЯ" ∷ "ЭСТОНИЯ" ∷ [], "EE")
    ∷ ("HU" ∷ "HUN" ∷ "HUNGARY" ∷ "УГОРЩИНА" ∷ "ВЕНГРИЯ" ∷ [], "HU")
    ∷ ("RO" ∷ "ROU" ∷ "ROMANIA" ∷ "РУМУНІЯ" ∷ "РУМЫНИЯ" ∷ [], "RO")
    ∷ ("BG" ∷ "BGR" ∷ "BULGARIA" ∷ "БОЛГАРІЯ" ∷ "БОЛГАРИЯ" ∷ [], "BG")
    ∷ []

unfoldable pub code_of : String → List (List String × String) → String
code_of key [] = key
code_of key ((names, code) ∷ rest) = if one_of names key then code else code_of key rest

-- The letters and digits of a text, in capitals.
unfoldable pub upper_key : Unicode → String → String
upper_key u s = flat_map u.upper (keep_chars u.alphanumeric s)

unfoldable pub country_of : String → String
country_of key = if one_of no_country key then String.[] else code_of key country_codes

unfoldable pub normalize_country_key : Unicode → String → String
normalize_country_key u value =
    let name : String = trimmed u value in
    if is_empty name then String.[] else country_of (upper_key u name)

-- The texts that stand for a missing label.
unfoldable pub no_label : List String
no_label =
    "0" ∷ "00" ∷ "000" ∷ "0000" ∷ "NA" ∷ "NА" ∷ "ND" ∷ "NULL" ∷ "NONE" ∷ "NODATA" ∷ "UNKNOWN" ∷ "НД"
    ∷ "НЕМАДАНИХ" ∷ "НЕТДАННЫХ" ∷ "НЕВІДОМО" ∷ "НЕИЗВЕСТНО" ∷ []

unfoldable pub clean_label_value : Unicode → String → String
clean_label_value u value =
    let label : String = trimmed u value in
    if is_empty label
    then String.[]
    else if one_of no_label (upper_key u label)
    then String.[]
    else label
