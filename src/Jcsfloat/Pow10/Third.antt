-- ===== src/Jcsfloat/Pow10/Third.antt =====
-- jcsfloat/pow10_table.go, the entries for 1e-68 to 1e71: low word, high word.
use jcs_schubfach.Prelude.{ℕ, List, [], ◌∷◌}

unfoldable pub third_powers : List (ℕ × ℕ)
third_powers =
    (0x1B8E9ECB641B58FF, 0x8A08F0F8BF0F156B)
    ∷ (0xE272467E3D222F3F, 0xAC8B2D36EED2DAC5)
    ∷ (0x5B0ED81DCC6ABB0F, 0xD7ADF884AA879177)
    ∷ (0x98E947129FC2B4E9, 0x86CCBB52EA94BAEA)
    ∷ (0x3F2398D747B36224, 0xA87FEA27A539E9A5)
    ∷ (0x8EEC7F0D19A03AAD, 0xD29FE4B18E88640E)
    ∷ (0x1953CF68300424AC, 0x83A3EEEEF9153E89)
    ∷ (0x5FA8C3423C052DD7, 0xA48CEAAAB75A8E2B)
    ∷ (0x3792F412CB06794D, 0xCDB02555653131B6)
    ∷ (0xE2BBD88BBEE40BD0, 0x808E17555F3EBF11)
    ∷ (0x5B6ACEAEAE9D0EC4, 0xA0B19D2AB70E6ED6)
    ∷ (0xF245825A5A445275, 0xC8DE047564D20A8B)
    ∷ (0xEED6E2F0F0D56712, 0xFB158592BE068D2E)
    ∷ (0x55464DD69685606B, 0x9CED737BB6C4183D)
    ∷ (0xAA97E14C3C26B886, 0xC428D05AA4751E4C)
    ∷ (0xD53DD99F4B3066A8, 0xF53304714D9265DF)
    ∷ (0xE546A8038EFE4029, 0x993FE2C6D07B7FAB)
    ∷ (0xDE98520472BDD033, 0xBF8FDB78849A5F96)
    ∷ (0x963E66858F6D4440, 0xEF73D256A5C0F77C)
    ∷ (0xDDE7001379A44AA8, 0x95A8637627989AAD)
    ∷ (0x5560C018580D5D52, 0xBB127C53B17EC159)
    ∷ (0xAAB8F01E6E10B4A6, 0xE9D71B689DDE71AF)
    ∷ (0xCAB3961304CA70E8, 0x9226712162AB070D)
    ∷ (0x3D607B97C5FD0D22, 0xB6B00D69BB55C8D1)
    ∷ (0x8CB89A7DB77C506A, 0xE45C10C42A2B3B05)
    ∷ (0x77F3608E92ADB242, 0x8EB98A7A9A5B04E3)
    ∷ (0x55F038B237591ED3, 0xB267ED1940F1C61C)
    ∷ (0x6B6C46DEC52F6688, 0xDF01E85F912E37A3)
    ∷ (0x2323AC4B3B3DA015, 0x8B61313BBABCE2C6)
    ∷ (0xABEC975E0A0D081A, 0xAE397D8AA96C1B77)
    ∷ (0x96E7BD358C904A21, 0xD9C7DCED53C72255)
    ∷ (0x7E50D64177DA2E54, 0x881CEA14545C7575)
    ∷ (0xDDE50BD1D5D0B9E9, 0xAA242499697392D2)
    ∷ (0x955E4EC64B44E864, 0xD4AD2DBFC3D07787)
    ∷ (0xBD5AF13BEF0B113E, 0x84EC3C97DA624AB4)
    ∷ (0xECB1AD8AEACDD58E, 0xA6274BBDD0FADD61)
    ∷ (0x67DE18EDA5814AF2, 0xCFB11EAD453994BA)
    ∷ (0x80EACF948770CED7, 0x81CEB32C4B43FCF4)
    ∷ (0xA1258379A94D028D, 0xA2425FF75E14FC31)
    ∷ (0x096EE45813A04330, 0xCAD2F7F5359A3B3E)
    ∷ (0x8BCA9D6E188853FC, 0xFD87B5F28300CA0D)
    ∷ (0x775EA264CF55347D, 0x9E74D1B791E07E48)
    ∷ (0x95364AFE032A819D, 0xC612062576589DDA)
    ∷ (0x3A83DDBD83F52204, 0xF79687AED3EEC551)
    ∷ (0xC4926A9672793542, 0x9ABE14CD44753B52)
    ∷ (0x75B7053C0F178293, 0xC16D9A0095928A27)
    ∷ (0x5324C68B12DD6338, 0xF1C90080BAF72CB1)
    ∷ (0xD3F6FC16EBCA5E03, 0x971DA05074DA7BEE)
    ∷ (0x88F4BB1CA6BCF584, 0xBCE5086492111AEA)
    ∷ (0x2B31E9E3D06C32E5, 0xEC1E4A7DB69561A5)
    ∷ (0x3AFF322E62439FCF, 0x9392EE8E921D5D07)
    ∷ (0x09BEFEB9FAD487C2, 0xB877AA3236A4B449)
    ∷ (0x4C2EBE687989A9B3, 0xE69594BEC44DE15B)
    ∷ (0x0F9D37014BF60A10, 0x901D7CF73AB0ACD9)
    ∷ (0x538484C19EF38C94, 0xB424DC35095CD80F)
    ∷ (0x2865A5F206B06FB9, 0xE12E13424BB40E13)
    ∷ (0xF93F87B7442E45D3, 0x8CBCCC096F5088CB)
    ∷ (0xF78F69A51539D748, 0xAFEBFF0BCB24AAFE)
    ∷ (0xB573440E5A884D1B, 0xDBE6FECEBDEDD5BE)
    ∷ (0x31680A88F8953030, 0x89705F4136B4A597)
    ∷ (0xFDC20D2B36BA7C3D, 0xABCC77118461CEFC)
    ∷ (0x3D32907604691B4C, 0xD6BF94D5E57A42BC)
    ∷ (0xA63F9A49C2C1B10F, 0x8637BD05AF6C69B5)
    ∷ (0x0FCF80DC33721D53, 0xA7C5AC471B478423)
    ∷ (0xD3C36113404EA4A8, 0xD1B71758E219652B)
    ∷ (0x645A1CAC083126E9, 0x83126E978D4FDF3B)
    ∷ (0x3D70A3D70A3D70A3, 0xA3D70A3D70A3D70A)
    ∷ (0xCCCCCCCCCCCCCCCC, 0xCCCCCCCCCCCCCCCC)
    ∷ (0x0000000000000000, 0x8000000000000000)
    ∷ (0x0000000000000000, 0xA000000000000000)
    ∷ (0x0000000000000000, 0xC800000000000000)
    ∷ (0x0000000000000000, 0xFA00000000000000)
    ∷ (0x0000000000000000, 0x9C40000000000000)
    ∷ (0x0000000000000000, 0xC350000000000000)
    ∷ (0x0000000000000000, 0xF424000000000000)
    ∷ (0x0000000000000000, 0x9896800000000000)
    ∷ (0x0000000000000000, 0xBEBC200000000000)
    ∷ (0x0000000000000000, 0xEE6B280000000000)
    ∷ (0x0000000000000000, 0x9502F90000000000)
    ∷ (0x0000000000000000, 0xBA43B74000000000)
    ∷ (0x0000000000000000, 0xE8D4A51000000000)
    ∷ (0x0000000000000000, 0x9184E72A00000000)
    ∷ (0x0000000000000000, 0xB5E620F480000000)
    ∷ (0x0000000000000000, 0xE35FA931A0000000)
    ∷ (0x0000000000000000, 0x8E1BC9BF04000000)
    ∷ (0x0000000000000000, 0xB1A2BC2EC5000000)
    ∷ (0x0000000000000000, 0xDE0B6B3A76400000)
    ∷ (0x0000000000000000, 0x8AC7230489E80000)
    ∷ (0x0000000000000000, 0xAD78EBC5AC620000)
    ∷ (0x0000000000000000, 0xD8D726B7177A8000)
    ∷ (0x0000000000000000, 0x878678326EAC9000)
    ∷ (0x0000000000000000, 0xA968163F0A57B400)
    ∷ (0x0000000000000000, 0xD3C21BCECCEDA100)
    ∷ (0x0000000000000000, 0x84595161401484A0)
    ∷ (0x0000000000000000, 0xA56FA5B99019A5C8)
    ∷ (0x0000000000000000, 0xCECB8F27F4200F3A)
    ∷ (0x4000000000000000, 0x813F3978F8940984)
    ∷ (0x5000000000000000, 0xA18F07D736B90BE5)
    ∷ (0xA400000000000000, 0xC9F2C9CD04674EDE)
    ∷ (0x4D00000000000000, 0xFC6F7C4045812296)
    ∷ (0xF020000000000000, 0x9DC5ADA82B70B59D)
    ∷ (0x6C28000000000000, 0xC5371912364CE305)
    ∷ (0xC732000000000000, 0xF684DF56C3E01BC6)
    ∷ (0x3C7F400000000000, 0x9A130B963A6C115C)
    ∷ (0x4B9F100000000000, 0xC097CE7BC90715B3)
    ∷ (0x1E86D40000000000, 0xF0BDC21ABB48DB20)
    ∷ (0x1314448000000000, 0x96769950B50D88F4)
    ∷ (0x17D955A000000000, 0xBC143FA4E250EB31)
    ∷ (0x5DCFAB0800000000, 0xEB194F8E1AE525FD)
    ∷ (0x5AA1CAE500000000, 0x92EFD1B8D0CF37BE)
    ∷ (0xF14A3D9E40000000, 0xB7ABC627050305AD)
    ∷ (0x6D9CCD05D0000000, 0xE596B7B0C643C719)
    ∷ (0xE4820023A2000000, 0x8F7E32CE7BEA5C6F)
    ∷ (0xDDA2802C8A800000, 0xB35DBF821AE4F38B)
    ∷ (0xD50B2037AD200000, 0xE0352F62A19E306E)
    ∷ (0x4526F422CC340000, 0x8C213D9DA502DE45)
    ∷ (0x9670B12B7F410000, 0xAF298D050E4395D6)
    ∷ (0x3C0CDD765F114000, 0xDAF3F04651D47B4C)
    ∷ (0xA5880A69FB6AC800, 0x88D8762BF324CD0F)
    ∷ (0x8EEA0D047A457A00, 0xAB0E93B6EFEE0053)
    ∷ (0x72A4904598D6D880, 0xD5D238A4ABE98068)
    ∷ (0x47A6DA2B7F864750, 0x85A36366EB71F041)
    ∷ (0x999090B65F67D924, 0xA70C3C40A64E6C51)
    ∷ (0xFFF4B4E3F741CF6D, 0xD0CF4B50CFE20765)
    ∷ (0xBFF8F10E7A8921A4, 0x82818F1281ED449F)
    ∷ (0xAFF72D52192B6A0D, 0xA321F2D7226895C7)
    ∷ (0x9BF4F8A69F764490, 0xCBEA6F8CEB02BB39)
    ∷ (0x02F236D04753D5B4, 0xFEE50B7025C36A08)
    ∷ (0x01D762422C946590, 0x9F4F2726179A2245)
    ∷ (0x424D3AD2B7B97EF5, 0xC722F0EF9D80AAD6)
    ∷ (0xD2E0898765A7DEB2, 0xF8EBAD2B84E0D58B)
    ∷ (0x63CC55F49F88EB2F, 0x9B934C3B330C8577)
    ∷ (0x3CBF6B71C76B25FB, 0xC2781F49FFCFA6D5)
    ∷ (0x8BEF464E3945EF7A, 0xF316271C7FC3908A)
    ∷ (0x97758BF0E3CBB5AC, 0x97EDD871CFDA3A56)
    ∷ (0x3D52EEED1CBEA317, 0xBDE94E8E43D0C8EC)
    ∷ (0x4CA7AAA863EE4BDD, 0xED63A231D4C4FB27)
    ∷ (0x8FE8CAA93E74EF6A, 0x945E455F24FB1CF8)
    ∷ (0xB3E2FD538E122B44, 0xB975D6B6EE39E436)
    ∷ (0x60DBBCA87196B616, 0xE7D34C64A9C85D44)
    ∷ []
