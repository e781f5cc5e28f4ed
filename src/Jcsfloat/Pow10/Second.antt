-- ===== src/Jcsfloat/Pow10/Second.antt =====
-- jcsfloat/pow10_table.go, the entries for 1e-208 to 1e-69: low word, high word.
use jcs_schubfach.Prelude.{ℕ, List, [], ◌∷◌}

unfoldable pub second_powers : List (ℕ × ℕ)
second_powers =
    (0x4247CB9E59F71E6D, 0x8380DEA93DA4BC60)
    ∷ (0x52D9BE85F074E608, 0xA46116538D0DEB78)
    ∷ (0x67902E276C921F8B, 0xCD795BE870516656)
    ∷ (0x00BA1CD8A3DB53B6, 0x806BD9714632DFF6)
    ∷ (0x80E8A40ECCD228A4, 0xA086CFCD97BF97F3)
    ∷ (0x6122CD128006B2CD, 0xC8A883C0FDAF7DF0)
    ∷ (0x796B805720085F81, 0xFAD2A4B13D1B5D6C)
    ∷ (0xCBE3303674053BB0, 0x9CC3A6EEC6311A63)
    ∷ (0xBEDBFC4411068A9C, 0xC3F490AA77BD60FC)
    ∷ (0xEE92FB5515482D44, 0xF4F1B4D515ACB93B)
    ∷ (0x751BDD152D4D1C4A, 0x991711052D8BF3C5)
    ∷ (0xD262D45A78A0635D, 0xBF5CD54678EEF0B6)
    ∷ (0x86FB897116C87C34, 0xEF340A98172AACE4)
    ∷ (0xD45D35E6AE3D4DA0, 0x9580869F0E7AAC0E)
    ∷ (0x8974836059CCA109, 0xBAE0A846D2195712)
    ∷ (0x2BD1A438703FC94B, 0xE998D258869FACD7)
    ∷ (0x7B6306A34627DDCF, 0x91FF83775423CC06)
    ∷ (0x1A3BC84C17B1D542, 0xB67F6455292CBF08)
    ∷ (0x20CABA5F1D9E4A93, 0xE41F3D6A7377EECA)
    ∷ (0x547EB47B7282EE9C, 0x8E938662882AF53E)
    ∷ (0xE99E619A4F23AA43, 0xB23867FB2A35B28D)
    ∷ (0x6405FA00E2EC94D4, 0xDEC681F9F4C31F31)
    ∷ (0xDE83BC408DD3DD04, 0x8B3C113C38F9F37E)
    ∷ (0x9624AB50B148D445, 0xAE0B158B4738705E)
    ∷ (0x3BADD624DD9B0957, 0xD98DDAEE19068C76)
    ∷ (0xE54CA5D70A80E5D6, 0x87F8A8D4CFA417C9)
    ∷ (0x5E9FCF4CCD211F4C, 0xA9F6D30A038D1DBC)
    ∷ (0x7647C3200069671F, 0xD47487CC8470652B)
    ∷ (0x29ECD9F40041E073, 0x84C8D4DFD2C63F3B)
    ∷ (0xF468107100525890, 0xA5FB0A17C777CF09)
    ∷ (0x7182148D4066EEB4, 0xCF79CC9DB955C2CC)
    ∷ (0xC6F14CD848405530, 0x81AC1FE293D599BF)
    ∷ (0xB8ADA00E5A506A7C, 0xA21727DB38CB002F)
    ∷ (0xA6D90811F0E4851C, 0xCA9CF1D206FDC03B)
    ∷ (0x908F4A166D1DA663, 0xFD442E4688BD304A)
    ∷ (0x9A598E4E043287FE, 0x9E4A9CEC15763E2E)
    ∷ (0x40EFF1E1853F29FD, 0xC5DD44271AD3CDBA)
    ∷ (0xD12BEE59E68EF47C, 0xF7549530E188C128)
    ∷ (0x82BB74F8301958CE, 0x9A94DD3E8CF578B9)
    ∷ (0xE36A52363C1FAF01, 0xC13A148E3032D6E7)
    ∷ (0xDC44E6C3CB279AC1, 0xF18899B1BC3F8CA1)
    ∷ (0x29AB103A5EF8C0B9, 0x96F5600F15A7B7E5)
    ∷ (0x7415D448F6B6F0E7, 0xBCB2B812DB11A5DE)
    ∷ (0x111B495B3464AD21, 0xEBDF661791D60F56)
    ∷ (0xCAB10DD900BEEC34, 0x936B9FCEBB25C995)
    ∷ (0x3D5D514F40EEA742, 0xB84687C269EF3BFB)
    ∷ (0x0CB4A5A3112A5112, 0xE65829B3046B0AFA)
    ∷ (0x47F0E785EABA72AB, 0x8FF71A0FE2C2E6DC)
    ∷ (0x59ED216765690F56, 0xB3F4E093DB73A093)
    ∷ (0x306869C13EC3532C, 0xE0F218B8D25088B8)
    ∷ (0x1E414218C73A13FB, 0x8C974F7383725573)
    ∷ (0xE5D1929EF90898FA, 0xAFBD2350644EEACF)
    ∷ (0xDF45F746B74ABF39, 0xDBAC6C247D62A583)
    ∷ (0x6B8BBA8C328EB783, 0x894BC396CE5DA772)
    ∷ (0x066EA92F3F326564, 0xAB9EB47C81F5114F)
    ∷ (0xC80A537B0EFEFEBD, 0xD686619BA27255A2)
    ∷ (0xBD06742CE95F5F36, 0x8613FD0145877585)
    ∷ (0x2C48113823B73704, 0xA798FC4196E952E7)
    ∷ (0xF75A15862CA504C5, 0xD17F3B51FCA3A7A0)
    ∷ (0x9A984D73DBE722FB, 0x82EF85133DE648C4)
    ∷ (0xC13E60D0D2E0EBBA, 0xA3AB66580D5FDAF5)
    ∷ (0x318DF905079926A8, 0xCC963FEE10B7D1B3)
    ∷ (0xFDF17746497F7052, 0xFFBBCFE994E5C61F)
    ∷ (0xFEB6EA8BEDEFA633, 0x9FD561F1FD0F9BD3)
    ∷ (0xFE64A52EE96B8FC0, 0xC7CABA6E7C5382C8)
    ∷ (0x3DFDCE7AA3C673B0, 0xF9BD690A1B68637B)
    ∷ (0x06BEA10CA65C084E, 0x9C1661A651213E2D)
    ∷ (0x486E494FCFF30A62, 0xC31BFA0FE5698DB8)
    ∷ (0x5A89DBA3C3EFCCFA, 0xF3E2F893DEC3F126)
    ∷ (0xF89629465A75E01C, 0x986DDB5C6B3A76B7)
    ∷ (0xF6BBB397F1135823, 0xBE89523386091465)
    ∷ (0x746AA07DED582E2C, 0xEE2BA6C0678B597F)
    ∷ (0xA8C2A44EB4571CDC, 0x94DB483840B717EF)
    ∷ (0x92F34D62616CE413, 0xBA121A4650E4DDEB)
    ∷ (0x77B020BAF9C81D17, 0xE896A0D7E51E1566)
    ∷ (0x0ACE1474DC1D122E, 0x915E2486EF32CD60)
    ∷ (0x0D819992132456BA, 0xB5B5ADA8AAFF80B8)
    ∷ (0x10E1FFF697ED6C69, 0xE3231912D5BF60E6)
    ∷ (0xCA8D3FFA1EF463C1, 0x8DF5EFABC5979C8F)
    ∷ (0xBD308FF8A6B17CB2, 0xB1736B96B6FD83B3)
    ∷ (0xAC7CB3F6D05DDBDE, 0xDDD0467C64BCE4A0)
    ∷ (0x6BCDF07A423AA96B, 0x8AA22C0DBEF60EE4)
    ∷ (0x86C16C98D2C953C6, 0xAD4AB7112EB3929D)
    ∷ (0xE871C7BF077BA8B7, 0xD89D64D57A607744)
    ∷ (0x11471CD764AD4972, 0x87625F056C7C4A8B)
    ∷ (0xD598E40D3DD89BCF, 0xA93AF6C6C79B5D2D)
    ∷ (0x4AFF1D108D4EC2C3, 0xD389B47879823479)
    ∷ (0xCEDF722A585139BA, 0x843610CB4BF160CB)
    ∷ (0xC2974EB4EE658828, 0xA54394FE1EEDB8FE)
    ∷ (0x733D226229FEEA32, 0xCE947A3DA6A9273E)
    ∷ (0x0806357D5A3F525F, 0x811CCC668829B887)
    ∷ (0xCA07C2DCB0CF26F7, 0xA163FF802A3426A8)
    ∷ (0xFC89B393DD02F0B5, 0xC9BCFF6034C13052)
    ∷ (0xBBAC2078D443ACE2, 0xFC2C3F3841F17C67)
    ∷ (0xD54B944B84AA4C0D, 0x9D9BA7832936EDC0)
    ∷ (0x0A9E795E65D4DF11, 0xC5029163F384A931)
    ∷ (0x4D4617B5FF4A16D5, 0xF64335BCF065D37D)
    ∷ (0x504BCED1BF8E4E45, 0x99EA0196163FA42E)
    ∷ (0xE45EC2862F71E1D6, 0xC06481FB9BCF8D39)
    ∷ (0x5D767327BB4E5A4C, 0xF07DA27A82C37088)
    ∷ (0x3A6A07F8D510F86F, 0x964E858C91BA2655)
    ∷ (0x890489F70A55368B, 0xBBE226EFB628AFEA)
    ∷ (0x2B45AC74CCEA842E, 0xEADAB0ABA3B2DBE5)
    ∷ (0x3B0B8BC90012929D, 0x92C8AE6B464FC96F)
    ∷ (0x09CE6EBB40173744, 0xB77ADA0617E3BBCB)
    ∷ (0xCC420A6A101D0515, 0xE55990879DDCAABD)
    ∷ (0x9FA946824A12232D, 0x8F57FA54C2A9EAB6)
    ∷ (0x47939822DC96ABF9, 0xB32DF8E9F3546564)
    ∷ (0x59787E2B93BC56F7, 0xDFF9772470297EBD)
    ∷ (0x57EB4EDB3C55B65A, 0x8BFBEA76C619EF36)
    ∷ (0xEDE622920B6B23F1, 0xAEFAE51477A06B03)
    ∷ (0xE95FAB368E45ECED, 0xDAB99E59958885C4)
    ∷ (0x11DBCB0218EBB414, 0x88B402F7FD75539B)
    ∷ (0xD652BDC29F26A119, 0xAAE103B5FCD2A881)
    ∷ (0x4BE76D3346F0495F, 0xD59944A37C0752A2)
    ∷ (0x6F70A4400C562DDB, 0x857FCAE62D8493A5)
    ∷ (0xCB4CCD500F6BB952, 0xA6DFBD9FB8E5B88E)
    ∷ (0x7E2000A41346A7A7, 0xD097AD07A71F26B2)
    ∷ (0x8ED400668C0C28C8, 0x825ECC24C873782F)
    ∷ (0x728900802F0F32FA, 0xA2F67F2DFA90563B)
    ∷ (0x4F2B40A03AD2FFB9, 0xCBB41EF979346BCA)
    ∷ (0xE2F610C84987BFA8, 0xFEA126B7D78186BC)
    ∷ (0x0DD9CA7D2DF4D7C9, 0x9F24B832E6B0F436)
    ∷ (0x91503D1C79720DBB, 0xC6EDE63FA05D3143)
    ∷ (0x75A44C6397CE912A, 0xF8A95FCF88747D94)
    ∷ (0xC986AFBE3EE11ABA, 0x9B69DBE1B548CE7C)
    ∷ (0xFBE85BADCE996168, 0xC24452DA229B021B)
    ∷ (0xFAE27299423FB9C3, 0xF2D56790AB41C2A2)
    ∷ (0xDCCD879FC967D41A, 0x97C560BA6B0919A5)
    ∷ (0x5400E987BBC1C920, 0xBDB6B8E905CB600F)
    ∷ (0x290123E9AAB23B68, 0xED246723473E3813)
    ∷ (0xF9A0B6720AAF6521, 0x9436C0760C86E30B)
    ∷ (0xF808E40E8D5B3E69, 0xB94470938FA89BCE)
    ∷ (0xB60B1D1230B20E04, 0xE7958CB87392C2C2)
    ∷ (0xB1C6F22B5E6F48C2, 0x90BD77F3483BB9B9)
    ∷ (0x1E38AEB6360B1AF3, 0xB4ECD5F01A4AA828)
    ∷ (0x25C6DA63C38DE1B0, 0xE2280B6C20DD5232)
    ∷ (0x579C487E5A38AD0E, 0x8D590723948A535F)
    ∷ (0x2D835A9DF0C6D851, 0xB0AF48EC79ACE837)
    ∷ (0xF8E431456CF88E65, 0xDCDB1B2798182244)
    ∷ []
