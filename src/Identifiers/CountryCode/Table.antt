-- ===== src/Identifiers/CountryCode/Table.antt =====
-- The table of country_code.rs.
use valqeron.Base.{List, [], ◌∷◌}
use valqeron.Text.{Bytes, codes}

-- The codes that ISO 3166-1 assigns.
unfoldable pub assigned_codes : List Bytes
assigned_codes =
    codes "AD"
    ∷ codes "AE"
    ∷ codes "AF"
    ∷ codes "AG"
    ∷ codes "AI"
    ∷ codes "AL"
    ∷ codes "AM"
    ∷ codes "AO"
    ∷ codes "AQ"
    ∷ codes "AR"
    ∷ codes "AS"
    ∷ codes "AT"
    ∷ codes "AU"
    ∷ codes "AW"
    ∷ codes "AX"
    ∷ codes "AZ"
    ∷ codes "BA"
    ∷ codes "BB"
    ∷ codes "BD"
    ∷ codes "BE"
    ∷ codes "BF"
    ∷ codes "BG"
    ∷ codes "BH"
    ∷ codes "BI"
    ∷ codes "BJ"
    ∷ codes "BL"
    ∷ codes "BM"
    ∷ codes "BN"
    ∷ codes "BO"
    ∷ codes "BQ"
    ∷ codes "BR"
    ∷ codes "BS"
    ∷ codes "BT"
    ∷ codes "BV"
    ∷ codes "BW"
    ∷ codes "BY"
    ∷ codes "BZ"
    ∷ codes "CA"
    ∷ codes "CC"
    ∷ codes "CD"
    ∷ codes "CF"
    ∷ codes "CG"
    ∷ codes "CH"
    ∷ codes "CI"
    ∷ codes "CK"
    ∷ codes "CL"
    ∷ codes "CM"
    ∷ codes "CN"
    ∷ codes "CO"
    ∷ codes "CR"
    ∷ codes "CU"
    ∷ codes "CV"
    ∷ codes "CW"
    ∷ codes "CX"
    ∷ codes "CY"
    ∷ codes "CZ"
    ∷ codes "DE"
    ∷ codes "DJ"
    ∷ codes "DK"
    ∷ codes "DM"
    ∷ codes "DO"
    ∷ codes "DZ"
    ∷ codes "EC"
    ∷ codes "EE"
    ∷ codes "EG"
    ∷ codes "EH"
    ∷ codes "ER"
    ∷ codes "ES"
    ∷ codes "ET"
    ∷ codes "FI"
    ∷ codes "FJ"
    ∷ codes "FK"
    ∷ codes "FM"
    ∷ codes "FO"
    ∷ codes "FR"
    ∷ codes "GA"
    ∷ codes "GB"
    ∷ codes "GD"
    ∷ codes "GE"
    ∷ codes "GF"
    ∷ codes "GG"
    ∷ codes "GH"
    ∷ codes "GI"
    ∷ codes "GL"
    ∷ codes "GM"
    ∷ codes "GN"
    ∷ codes "GP"
    ∷ codes "GQ"
    ∷ codes "GR"
    ∷ codes "GS"
    ∷ codes "GT"
    ∷ codes "GU"
    ∷ codes "GW"
    ∷ codes "GY"
    ∷ codes "HK"
    ∷ codes "HM"
    ∷ codes "HN"
    ∷ codes "HR"
    ∷ codes "HT"
    ∷ codes "HU"
    ∷ codes "ID"
    ∷ codes "IE"
    ∷ codes "IL"
    ∷ codes "IM"
    ∷ codes "IN"
    ∷ codes "IO"
    ∷ codes "IQ"
    ∷ codes "IR"
    ∷ codes "IS"
    ∷ codes "IT"
    ∷ codes "JE"
    ∷ codes "JM"
    ∷ codes "JO"
    ∷ codes "JP"
    ∷ codes "KE"
    ∷ codes "KG"
    ∷ codes "KH"
    ∷ codes "KI"
    ∷ codes "KM"
    ∷ codes "KN"
    ∷ codes "KP"
    ∷ codes "KR"
    ∷ codes "KW"
    ∷ codes "KY"
    ∷ codes "KZ"
    ∷ codes "LA"
    ∷ codes "LB"
    ∷ codes "LC"
    ∷ codes "LI"
    ∷ codes "LK"
    ∷ codes "LR"
    ∷ codes "LS"
    ∷ codes "LT"
    ∷ codes "LU"
    ∷ codes "LV"
    ∷ codes "LY"
    ∷ codes "MA"
    ∷ codes "MC"
    ∷ codes "MD"
    ∷ codes "ME"
    ∷ codes "MF"
    ∷ codes "MG"
    ∷ codes "MH"
    ∷ codes "MK"
    ∷ codes "ML"
    ∷ codes "MM"
    ∷ codes "MN"
    ∷ codes "MO"
    ∷ codes "MP"
    ∷ codes "MQ"
    ∷ codes "MR"
    ∷ codes "MS"
    ∷ codes "MT"
    ∷ codes "MU"
    ∷ codes "MV"
    ∷ codes "MW"
    ∷ codes "MX"
    ∷ codes "MY"
    ∷ codes "MZ"
    ∷ codes "NA"
    ∷ codes "NC"
    ∷ codes "NE"
    ∷ codes "NF"
    ∷ codes "NG"
    ∷ codes "NI"
    ∷ codes "NL"
    ∷ codes "NO"
    ∷ codes "NP"
    ∷ codes "NR"
    ∷ codes "NU"
    ∷ codes "NZ"
    ∷ codes "OM"
    ∷ codes "PA"
    ∷ codes "PE"
    ∷ codes "PF"
    ∷ codes "PG"
    ∷ codes "PH"
    ∷ codes "PK"
    ∷ codes "PL"
    ∷ codes "PM"
    ∷ codes "PN"
    ∷ codes "PR"
    ∷ codes "PS"
    ∷ codes "PT"
    ∷ codes "PW"
    ∷ codes "PY"
    ∷ codes "QA"
    ∷ codes "RE"
    ∷ codes "RO"
    ∷ codes "RS"
    ∷ codes "RU"
    ∷ codes "RW"
    ∷ codes "SA"
    ∷ codes "SB"
    ∷ codes "SC"
    ∷ codes "SD"
    ∷ codes "SE"
    ∷ codes "SG"
    ∷ codes "SH"
    ∷ codes "SI"
    ∷ codes "SJ"
    ∷ codes "SK"
    ∷ codes "SL"
    ∷ codes "SM"
    ∷ codes "SN"
    ∷ codes "SO"
    ∷ codes "SR"
    ∷ codes "SS"
    ∷ codes "ST"
    ∷ codes "SV"
    ∷ codes "SX"
    ∷ codes "SY"
    ∷ codes "SZ"
    ∷ codes "TC"
    ∷ codes "TD"
    ∷ codes "TF"
    ∷ codes "TG"
    ∷ codes "TH"
    ∷ codes "TJ"
    ∷ codes "TK"
    ∷ codes "TL"
    ∷ codes "TM"
    ∷ codes "TN"
    ∷ codes "TO"
    ∷ codes "TR"
    ∷ codes "TT"
    ∷ codes "TV"
    ∷ codes "TW"
    ∷ codes "TZ"
    ∷ codes "UA"
    ∷ codes "UG"
    ∷ codes "UM"
    ∷ codes "US"
    ∷ codes "UY"
    ∷ codes "UZ"
    ∷ codes "VA"
    ∷ codes "VC"
    ∷ codes "VE"
    ∷ codes "VG"
    ∷ codes "VI"
    ∷ codes "VN"
    ∷ codes "VU"
    ∷ codes "WF"
    ∷ codes "WS"
    ∷ codes "YE"
    ∷ codes "YT"
    ∷ codes "ZA"
    ∷ codes "ZM"
    ∷ codes "ZW"
    ∷ []
