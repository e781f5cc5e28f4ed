-- ===== src/Jcsfloat/Pow10/First.antt =====
-- jcsfloat/pow10_table.go, the entries for 1e-348 to 1e-209: low word, high word.
use jcs_schubfach.Prelude.{ℕ, List, [], ◌∷◌}

unfoldable pub first_powers : List (ℕ × ℕ)
first_powers =
    (0x1732C869CD60E453, 0xFA8FD5A0081C0288)
    ∷ (0x0E7FBD42205C8EB4, 0x9C99E58405118195)
    ∷ (0x521FAC92A873B261, 0xC3C05EE50655E1FA)
    ∷ (0xE6A797B752909EF9, 0xF4B0769E47EB5A78)
    ∷ (0x9028BED2939A635C, 0x98EE4A22ECF3188B)
    ∷ (0x7432EE873880FC33, 0xBF29DCABA82FDEAE)
    ∷ (0x113FAA2906A13B3F, 0xEEF453D6923BD65A)
    ∷ (0x4AC7CA59A424C507, 0x9558B4661B6565F8)
    ∷ (0x5D79BCF00D2DF649, 0xBAAEE17FA23EBF76)
    ∷ (0xF4D82C2C107973DC, 0xE95A99DF8ACE6F53)
    ∷ (0x79071B9B8A4BE869, 0x91D8A02BB6C10594)
    ∷ (0x9748E2826CDEE284, 0xB64EC836A47146F9)
    ∷ (0xFD1B1B2308169B25, 0xE3E27A444D8D98B7)
    ∷ (0xFE30F0F5E50E20F7, 0x8E6D8C6AB0787F72)
    ∷ (0xBDBD2D335E51A935, 0xB208EF855C969F4F)
    ∷ (0xAD2C788035E61382, 0xDE8B2B66B3BC4723)
    ∷ (0x4C3BCB5021AFCC31, 0x8B16FB203055AC76)
    ∷ (0xDF4ABE242A1BBF3D, 0xADDCB9E83C6B1793)
    ∷ (0xD71D6DAD34A2AF0D, 0xD953E8624B85DD78)
    ∷ (0x8672648C40E5AD68, 0x87D4713D6F33AA6B)
    ∷ (0x680EFDAF511F18C2, 0xA9C98D8CCB009506)
    ∷ (0x0212BD1B2566DEF2, 0xD43BF0EFFDC0BA48)
    ∷ (0x014BB630F7604B57, 0x84A57695FE98746D)
    ∷ (0x419EA3BD35385E2D, 0xA5CED43B7E3E9188)
    ∷ (0x52064CAC828675B9, 0xCF42894A5DCE35EA)
    ∷ (0x7343EFEBD1940993, 0x818995CE7AA0E1B2)
    ∷ (0x1014EBE6C5F90BF8, 0xA1EBFB4219491A1F)
    ∷ (0xD41A26E077774EF6, 0xCA66FA129F9B60A6)
    ∷ (0x8920B098955522B4, 0xFD00B897478238D0)
    ∷ (0x55B46E5F5D5535B0, 0x9E20735E8CB16382)
    ∷ (0xEB2189F734AA831D, 0xC5A890362FDDBC62)
    ∷ (0xA5E9EC7501D523E4, 0xF712B443BBD52B7B)
    ∷ (0x47B233C92125366E, 0x9A6BB0AA55653B2D)
    ∷ (0x999EC0BB696E840A, 0xC1069CD4EABE89F8)
    ∷ (0xC00670EA43CA250D, 0xF148440A256E2C76)
    ∷ (0x380406926A5E5728, 0x96CD2A865764DBCA)
    ∷ (0xC605083704F5ECF2, 0xBC807527ED3E12BC)
    ∷ (0xF7864A44C633682E, 0xEBA09271E88D976B)
    ∷ (0x7AB3EE6AFBE0211D, 0x93445B8731587EA3)
    ∷ (0x5960EA05BAD82964, 0xB8157268FDAE9E4C)
    ∷ (0x6FB92487298E33BD, 0xE61ACF033D1A45DF)
    ∷ (0xA5D3B6D479F8E056, 0x8FD0C16206306BAB)
    ∷ (0x8F48A4899877186C, 0xB3C4F1BA87BC8696)
    ∷ (0x331ACDABFE94DE87, 0xE0B62E2929ABA83C)
    ∷ (0x9FF0C08B7F1D0B14, 0x8C71DCD9BA0B4925)
    ∷ (0x07ECF0AE5EE44DD9, 0xAF8E5410288E1B6F)
    ∷ (0xC9E82CD9F69D6150, 0xDB71E91432B1A24A)
    ∷ (0xBE311C083A225CD2, 0x892731AC9FAF056E)
    ∷ (0x6DBD630A48AAF406, 0xAB70FE17C79AC6CA)
    ∷ (0x092CBBCCDAD5B108, 0xD64D3D9DB981787D)
    ∷ (0x25BBF56008C58EA5, 0x85F0468293F0EB4E)
    ∷ (0xAF2AF2B80AF6F24E, 0xA76C582338ED2621)
    ∷ (0x1AF5AF660DB4AEE1, 0xD1476E2C07286FAA)
    ∷ (0x50D98D9FC890ED4D, 0x82CCA4DB847945CA)
    ∷ (0xE50FF107BAB528A0, 0xA37FCE126597973C)
    ∷ (0x1E53ED49A96272C8, 0xCC5FC196FEFD7D0C)
    ∷ (0x25E8E89C13BB0F7A, 0xFF77B1FCBEBCDC4F)
    ∷ (0x77B191618C54E9AC, 0x9FAACF3DF73609B1)
    ∷ (0xD59DF5B9EF6A2417, 0xC795830D75038C1D)
    ∷ (0x4B0573286B44AD1D, 0xF97AE3D0D2446F25)
    ∷ (0x4EE367F9430AEC32, 0x9BECCE62836AC577)
    ∷ (0x229C41F793CDA73F, 0xC2E801FB244576D5)
    ∷ (0x6B43527578C1110F, 0xF3A20279ED56D48A)
    ∷ (0x830A13896B78AAA9, 0x9845418C345644D6)
    ∷ (0x23CC986BC656D553, 0xBE5691EF416BD60C)
    ∷ (0x2CBFBE86B7EC8AA8, 0xEDEC366B11C6CB8F)
    ∷ (0x7BF7D71432F3D6A9, 0x94B3A202EB1C3F39)
    ∷ (0xDAF5CCD93FB0CC53, 0xB9E08A83A5E34F07)
    ∷ (0xD1B3400F8F9CFF68, 0xE858AD248F5C22C9)
    ∷ (0x23100809B9C21FA1, 0x91376C36D99995BE)
    ∷ (0xABD40A0C2832A78A, 0xB58547448FFFFB2D)
    ∷ (0x16C90C8F323F516C, 0xE2E69915B3FFF9F9)
    ∷ (0xAE3DA7D97F6792E3, 0x8DD01FAD907FFC3B)
    ∷ (0x99CD11CFDF41779C, 0xB1442798F49FFB4A)
    ∷ (0x40405643D711D583, 0xDD95317F31C7FA1D)
    ∷ (0x482835EA666B2572, 0x8A7D3EEF7F1CFC52)
    ∷ (0xDA3243650005EECF, 0xAD1C8EAB5EE43B66)
    ∷ (0x90BED43E40076A82, 0xD863B256369D4A40)
    ∷ (0x5A7744A6E804A291, 0x873E4F75E2224E68)
    ∷ (0x711515D0A205CB36, 0xA90DE3535AAAE202)
    ∷ (0x0D5A5B44CA873E03, 0xD3515C2831559A83)
    ∷ (0xE858790AFE9486C2, 0x8412D9991ED58091)
    ∷ (0x626E974DBE39A872, 0xA5178FFF668AE0B6)
    ∷ (0xFB0A3D212DC8128F, 0xCE5D73FF402D98E3)
    ∷ (0x7CE66634BC9D0B99, 0x80FA687F881C7F8E)
    ∷ (0x1C1FFFC1EBC44E80, 0xA139029F6A239F72)
    ∷ (0xA327FFB266B56220, 0xC987434744AC874E)
    ∷ (0x4BF1FF9F0062BAA8, 0xFBE9141915D7A922)
    ∷ (0x6F773FC3603DB4A9, 0x9D71AC8FADA6C9B5)
    ∷ (0xCB550FB4384D21D3, 0xC4CE17B399107C22)
    ∷ (0x7E2A53A146606A48, 0xF6019DA07F549B2B)
    ∷ (0x2EDA7444CBFC426D, 0x99C102844F94E0FB)
    ∷ (0xFA911155FEFB5308, 0xC0314325637A1939)
    ∷ (0x793555AB7EBA27CA, 0xF03D93EEBC589F88)
    ∷ (0x4BC1558B2F3458DE, 0x96267C7535B763B5)
    ∷ (0x9EB1AAEDFB016F16, 0xBBB01B9283253CA2)
    ∷ (0x465E15A979C1CADC, 0xEA9C227723EE8BCB)
    ∷ (0x0BFACD89EC191EC9, 0x92A1958A7675175F)
    ∷ (0xCEF980EC671F667B, 0xB749FAED14125D36)
    ∷ (0x82B7E12780E7401A, 0xE51C79A85916F484)
    ∷ (0xD1B2ECB8B0908810, 0x8F31CC0937AE58D2)
    ∷ (0x861FA7E6DCB4AA15, 0xB2FE3F0B8599EF07)
    ∷ (0x67A791E093E1D49A, 0xDFBDCECE67006AC9)
    ∷ (0xE0C8BB2C5C6D24E0, 0x8BD6A141006042BD)
    ∷ (0x58FAE9F773886E18, 0xAECC49914078536D)
    ∷ (0xAF39A475506A899E, 0xDA7F5BF590966848)
    ∷ (0x6D8406C952429603, 0x888F99797A5E012D)
    ∷ (0xC8E5087BA6D33B83, 0xAAB37FD7D8F58178)
    ∷ (0xFB1E4A9A90880A64, 0xD5605FCDCF32E1D6)
    ∷ (0x5CF2EEA09A55067F, 0x855C3BE0A17FCD26)
    ∷ (0xF42FAA48C0EA481E, 0xA6B34AD8C9DFC06F)
    ∷ (0xF13B94DAF124DA26, 0xD0601D8EFC57B08B)
    ∷ (0x76C53D08D6B70858, 0x823C12795DB6CE57)
    ∷ (0x54768C4B0C64CA6E, 0xA2CB1717B52481ED)
    ∷ (0xA9942F5DCF7DFD09, 0xCB7DDCDDA26DA268)
    ∷ (0xD3F93B35435D7C4C, 0xFE5D54150B090B02)
    ∷ (0xC47BC5014A1A6DAF, 0x9EFA548D26E5A6E1)
    ∷ (0x359AB6419CA1091B, 0xC6B8E9B0709F109A)
    ∷ (0xC30163D203C94B62, 0xF867241C8CC6D4C0)
    ∷ (0x79E0DE63425DCF1D, 0x9B407691D7FC44F8)
    ∷ (0x985915FC12F542E4, 0xC21094364DFB5636)
    ∷ (0x3E6F5B7B17B2939D, 0xF294B943E17A2BC4)
    ∷ (0xA705992CEECF9C42, 0x979CF3CA6CEC5B5A)
    ∷ (0x50C6FF782A838353, 0xBD8430BD08277231)
    ∷ (0xA4F8BF5635246428, 0xECE53CEC4A314EBD)
    ∷ (0x871B7795E136BE99, 0x940F4613AE5ED136)
    ∷ (0x28E2557B59846E3F, 0xB913179899F68584)
    ∷ (0x331AEADA2FE589CF, 0xE757DD7EC07426E5)
    ∷ (0x3FF0D2C85DEF7621, 0x9096EA6F3848984F)
    ∷ (0x0FED077A756B53A9, 0xB4BCA50B065ABE63)
    ∷ (0xD3E8495912C62894, 0xE1EBCE4DC7F16DFB)
    ∷ (0x64712DD7ABBBD95C, 0x8D3360F09CF6E4BD)
    ∷ (0xBD8D794D96AACFB3, 0xB080392CC4349DEC)
    ∷ (0xECF0D7A0FC5583A0, 0xDCA04777F541C567)
    ∷ (0xF41686C49DB57244, 0x89E42CAAF9491B60)
    ∷ (0x311C2875C522CED5, 0xAC5D37D5B79B6239)
    ∷ (0x7D633293366B828B, 0xD77485CB25823AC7)
    ∷ (0xAE5DFF9C02033197, 0x86A8D39EF77164BC)
    ∷ (0xD9F57F830283FDFC, 0xA8530886B54DBDEB)
    ∷ (0xD072DF63C324FD7B, 0xD267CAA862A12D66)
    ∷ []
