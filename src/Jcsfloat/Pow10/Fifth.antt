-- ===== src/Jcsfloat/Pow10/Fifth.antt =====
-- jcsfloat/pow10_table.go, the entries for 1e212 to 1e347: low word, high word.
use jcs_schubfach.Prelude.{ℕ, List, [], ◌∷◌}

unfoldable pub fifth_powers : List (ℕ × ℕ)
fifth_powers =
    (0xC3727A337A8B704A, 0x98165AF37B2153DE)
    ∷ (0x744F18C0592E4C5C, 0xBE1BF1B059E9A8D6)
    ∷ (0x1162DEF06F79DF73, 0xEDA2EE1C7064130C)
    ∷ (0x8ADDCB5645AC2BA8, 0x9485D4D1C63E8BE7)
    ∷ (0x6D953E2BD7173692, 0xB9A74A0637CE2EE1)
    ∷ (0xC8FA8DB6CCDD0437, 0xE8111C87C5C1BA99)
    ∷ (0x1D9C9892400A22A2, 0x910AB1D4DB9914A0)
    ∷ (0x2503BEB6D00CAB4B, 0xB54D5E4A127F59C8)
    ∷ (0x2E44AE64840FD61D, 0xE2A0B5DC971F303A)
    ∷ (0x5CEAECFED289E5D2, 0x8DA471A9DE737E24)
    ∷ (0x7425A83E872C5F47, 0xB10D8E1456105DAD)
    ∷ (0xD12F124E28F77719, 0xDD50F1996B947518)
    ∷ (0x82BD6B70D99AAA6F, 0x8A5296FFE33CC92F)
    ∷ (0x636CC64D1001550B, 0xACE73CBFDC0BFB7B)
    ∷ (0x3C47F7E05401AA4E, 0xD8210BEFD30EFA5A)
    ∷ (0x65ACFAEC34810A71, 0x8714A775E3E95C78)
    ∷ (0x7F1839A741A14D0D, 0xA8D9D1535CE3B396)
    ∷ (0x1EDE48111209A050, 0xD31045A8341CA07C)
    ∷ (0x934AED0AAB460432, 0x83EA2B892091E44D)
    ∷ (0xF81DA84D5617853F, 0xA4E4B66B68B65D60)
    ∷ (0x36251260AB9D668E, 0xCE1DE40642E3F4B9)
    ∷ (0xC1D72B7C6B426019, 0x80D2AE83E9CE78F3)
    ∷ (0xB24CF65B8612F81F, 0xA1075A24E4421730)
    ∷ (0xDEE033F26797B627, 0xC94930AE1D529CFC)
    ∷ (0x169840EF017DA3B1, 0xFB9B7CD9A4A7443C)
    ∷ (0x8E1F289560EE864E, 0x9D412E0806E88AA5)
    ∷ (0xF1A6F2BAB92A27E2, 0xC491798A08A2AD4E)
    ∷ (0xAE10AF696774B1DB, 0xF5B5D7EC8ACB58A2)
    ∷ (0xACCA6DA1E0A8EF29, 0x9991A6F3D6BF1765)
    ∷ (0x17FD090A58D32AF3, 0xBFF610B0CC6EDD3F)
    ∷ (0xDDFC4B4CEF07F5B0, 0xEFF394DCFF8A948E)
    ∷ (0x4ABDAF101564F98E, 0x95F83D0A1FB69CD9)
    ∷ (0x9D6D1AD41ABE37F1, 0xBB764C4CA7A4440F)
    ∷ (0x84C86189216DC5ED, 0xEA53DF5FD18D5513)
    ∷ (0x32FD3CF5B4E49BB4, 0x92746B9BE2F8552C)
    ∷ (0x3FBC8C33221DC2A1, 0xB7118682DBB66A77)
    ∷ (0x0FABAF3FEAA5334A, 0xE4D5E82392A40515)
    ∷ (0x29CB4D87F2A7400E, 0x8F05B1163BA6832D)
    ∷ (0x743E20E9EF511012, 0xB2C71D5BCA9023F8)
    ∷ (0x914DA9246B255416, 0xDF78E4B2BD342CF6)
    ∷ (0x1AD089B6C2F7548E, 0x8BAB8EEFB6409C1A)
    ∷ (0xA184AC2473B529B1, 0xAE9672ABA3D0C320)
    ∷ (0xC9E5D72D90A2741E, 0xDA3C0F568CC4F3E8)
    ∷ (0x7E2FA67C7A658892, 0x8865899617FB1871)
    ∷ (0xDDBB901B98FEEAB7, 0xAA7EEBFB9DF9DE8D)
    ∷ (0x552A74227F3EA565, 0xD51EA6FA85785631)
    ∷ (0xD53A88958F87275F, 0x8533285C936B35DE)
    ∷ (0x8A892ABAF368F137, 0xA67FF273B8460356)
    ∷ (0x2D2B7569B0432D85, 0xD01FEF10A657842C)
    ∷ (0x9C3B29620E29FC73, 0x8213F56A67F6B29B)
    ∷ (0x8349F3BA91B47B8F, 0xA298F2C501F45F42)
    ∷ (0x241C70A936219A73, 0xCB3F2F7642717713)
    ∷ (0xED238CD383AA0110, 0xFE0EFB53D30DD4D7)
    ∷ (0xF4363804324A40AA, 0x9EC95D1463E8A506)
    ∷ (0xB143C6053EDCD0D5, 0xC67BB4597CE2CE48)
    ∷ (0xDD94B7868E94050A, 0xF81AA16FDC1B81DA)
    ∷ (0xCA7CF2B4191C8326, 0x9B10A4E5E9913128)
    ∷ (0xFD1C2F611F63A3F0, 0xC1D4CE1F63F57D72)
    ∷ (0xBC633B39673C8CEC, 0xF24A01A73CF2DCCF)
    ∷ (0xD5BE0503E085D813, 0x976E41088617CA01)
    ∷ (0x4B2D8644D8A74E18, 0xBD49D14AA79DBC82)
    ∷ (0xDDF8E7D60ED1219E, 0xEC9C459D51852BA2)
    ∷ (0xCABB90E5C942B503, 0x93E1AB8252F33B45)
    ∷ (0x3D6A751F3B936243, 0xB8DA1662E7B00A17)
    ∷ (0x0CC512670A783AD4, 0xE7109BFBA19C0C9D)
    ∷ (0x27FB2B80668B24C5, 0x906A617D450187E2)
    ∷ (0xB1F9F660802DEDF6, 0xB484F9DC9641E9DA)
    ∷ (0x5E7873F8A0396973, 0xE1A63853BBD26451)
    ∷ (0xDB0B487B6423E1E8, 0x8D07E33455637EB2)
    ∷ (0x91CE1A9A3D2CDA62, 0xB049DC016ABC5E5F)
    ∷ (0x7641A140CC7810FB, 0xDC5C5301C56B75F7)
    ∷ (0xA9E904C87FCB0A9D, 0x89B9B3E11B6329BA)
    ∷ (0x546345FA9FBDCD44, 0xAC2820D9623BF429)
    ∷ (0xA97C177947AD4095, 0xD732290FBACAF133)
    ∷ (0x49ED8EABCCCC485D, 0x867F59A9D4BED6C0)
    ∷ (0x5C68F256BFFF5A74, 0xA81F301449EE8C70)
    ∷ (0x73832EEC6FFF3111, 0xD226FC195C6A2F8C)
    ∷ (0xC831FD53C5FF7EAB, 0x83585D8FD9C25DB7)
    ∷ (0xBA3E7CA8B77F5E55, 0xA42E74F3D032F525)
    ∷ (0x28CE1BD2E55F35EB, 0xCD3A1230C43FB26F)
    ∷ (0x7980D163CF5B81B3, 0x80444B5E7AA7CF85)
    ∷ (0xD7E105BCC332621F, 0xA0555E361951C366)
    ∷ (0x8DD9472BF3FEFAA7, 0xC86AB5C39FA63440)
    ∷ (0xB14F98F6F0FEB951, 0xFA856334878FC150)
    ∷ (0x6ED1BF9A569F33D3, 0x9C935E00D4B9D8D2)
    ∷ (0x0A862F80EC4700C8, 0xC3B8358109E84F07)
    ∷ (0xCD27BB612758C0FA, 0xF4A642E14C6262C8)
    ∷ (0x8038D51CB897789C, 0x98E7E9CCCFBD7DBD)
    ∷ (0xE0470A63E6BD56C3, 0xBF21E44003ACDD2C)
    ∷ (0x1858CCFCE06CAC74, 0xEEEA5D5004981478)
    ∷ (0x0F37801E0C43EBC8, 0x95527A5202DF0CCB)
    ∷ (0xD30560258F54E6BA, 0xBAA718E68396CFFD)
    ∷ (0x47C6B82EF32A2069, 0xE950DF20247C83FD)
    ∷ (0x4CDC331D57FA5441, 0x91D28B7416CDD27E)
    ∷ (0xE0133FE4ADF8E952, 0xB6472E511C81471D)
    ∷ (0x58180FDDD97723A6, 0xE3D8F9E563A198E5)
    ∷ (0x570F09EAA7EA7648, 0x8E679C2F5E44FF8F)
    ∷ (0x2CD2CC6551E513DA, 0xB201833B35D63F73)
    ∷ (0xF8077F7EA65E58D1, 0xDE81E40A034BCF4F)
    ∷ (0xFB04AFAF27FAF782, 0x8B112E86420F6191)
    ∷ (0x79C5DB9AF1F9B563, 0xADD57A27D29339F6)
    ∷ (0x18375281AE7822BC, 0xD94AD8B1C7380874)
    ∷ (0x8F2293910D0B15B5, 0x87CEC76F1C830548)
    ∷ (0xB2EB3875504DDB22, 0xA9C2794AE3A3C69A)
    ∷ (0x5FA60692A46151EB, 0xD433179D9C8CB841)
    ∷ (0xDBC7C41BA6BCD333, 0x849FEEC281D7F328)
    ∷ (0x12B9B522906C0800, 0xA5C7EA73224DEFF3)
    ∷ (0xD768226B34870A00, 0xCF39E50FEAE16BEF)
    ∷ (0xE6A1158300D46640, 0x81842F29F2CCE375)
    ∷ (0x60495AE3C1097FD0, 0xA1E53AF46F801C53)
    ∷ (0x385BB19CB14BDFC4, 0xCA5E89B18B602368)
    ∷ (0x46729E03DD9ED7B5, 0xFCF62C1DEE382C42)
    ∷ (0x6C07A2C26A8346D1, 0x9E19DB92B4E31BA9)
    ∷ (0xC7098B7305241885, 0xC5A05277621BE293)
    ∷ (0xB8CBEE4FC66D1EA7, 0xF70867153AA2DB38)
    ∷ (0x737F74F1DC043328, 0x9A65406D44A5C903)
    ∷ (0x505F522E53053FF2, 0xC0FE908895CF3B44)
    ∷ (0x647726B9E7C68FEF, 0xF13E34AABB430A15)
    ∷ (0x5ECA783430DC19F5, 0x96C6E0EAB509E64D)
    ∷ (0xB67D16413D132072, 0xBC789925624C5FE0)
    ∷ (0xE41C5BD18C57E88F, 0xEB96BF6EBADF77D8)
    ∷ (0x8E91B962F7B6F159, 0x933E37A534CBAAE7)
    ∷ (0x723627BBB5A4ADB0, 0xB80DC58E81FE95A1)
    ∷ (0xCEC3B1AAA30DD91C, 0xE61136F2227E3B09)
    ∷ (0x213A4F0AA5E8A7B1, 0x8FCAC257558EE4E6)
    ∷ (0xA988E2CD4F62D19D, 0xB3BD72ED2AF29E1F)
    ∷ (0x93EB1B80A33B8605, 0xE0ACCFA875AF45A7)
    ∷ (0xBC72F130660533C3, 0x8C6C01C9498D8B88)
    ∷ (0xEB8FAD7C7F8680B4, 0xAF87023B9BF0EE6A)
    ∷ (0xA67398DB9F6820E1, 0xDB68C2CA82ED2A05)
    ∷ (0x88083F8943A1148C, 0x892179BE91D43A43)
    ∷ (0x6A0A4F6B948959B0, 0xAB69D82E364948D4)
    ∷ (0x848CE34679ABB01C, 0xD6444E39C3DB9B09)
    ∷ (0xF2D80E0C0C0B4E11, 0x85EAB0E41A6940E5)
    ∷ (0x6F8E118F0F0E2195, 0xA7655D1D2103911F)
    ∷ (0x4B7195F2D2D1A9FB, 0xD13EB46469447567)
    ∷ []
