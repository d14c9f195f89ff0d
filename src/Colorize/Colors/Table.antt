-- ===== src/Colorize/Colors/Table.antt =====
-- The colour names of include/yk/colorize.hpp: the enumerators of `rgb_color` with their values.
-- `color_lookup_table` pairs each name with the enumerator of that name, in this order, and sorts.
use Prim.Native.String.{String}
use yk_util.Base.{ℕ, List, [], ◌∷◌}

abbrev pub enumerators : List (String × ℕ)
enumerators =
    ("black", 0x000000)
    ∷ ("dimgray", 0x696969)
    ∷ ("gray", 0x808080)
    ∷ ("darkgray", 0xa9a9a9)
    ∷ ("silver", 0xc0c0c0)
    ∷ ("lightgray", 0xd3d3d3)
    ∷ ("gainsboro", 0xdcdcdc)
    ∷ ("whitesmoke", 0xf5f5f5)
    ∷ ("white", 0xffffff)
    ∷ ("red", 0xff0000)
    ∷ ("orangered", 0xff4500)
    ∷ ("darkorange", 0xff8c00)
    ∷ ("orange", 0xffa500)
    ∷ ("gold", 0xffd700)
    ∷ ("yellow", 0xffff00)
    ∷ ("chartreuse", 0x7fff00)
    ∷ ("lime", 0x00ff00)
    ∷ ("springgreen", 0x00ff7f)
    ∷ ("aqua", 0x00ffff)
    ∷ ("cyan", 0x00ffff)
    ∷ ("deepskyblue", 0x00bfff)
    ∷ ("blue", 0x0000ff)
    ∷ ("fuchsia", 0xff00ff)
    ∷ ("magenta", 0xff00ff)
    ∷ ("snow", 0xfffafa)
    ∷ ("rosybrown", 0xbc8f8f)
    ∷ ("lightcoral", 0xf08080)
    ∷ ("indianred", 0xcd5c5c)
    ∷ ("brown", 0xa52a2a)
    ∷ ("firebrick", 0xb22222)
    ∷ ("maroon", 0x800000)
    ∷ ("darkred", 0x8b0000)
    ∷ ("mistyrose", 0xffe4e1)
    ∷ ("salmon", 0xfa8072)
    ∷ ("tomato", 0xff6347)
    ∷ ("darksalmon", 0xe9967a)
    ∷ ("coral", 0xff7f50)
    ∷ ("lightsalmon", 0xffa07a)
    ∷ ("sienna", 0xa0522d)
    ∷ ("seashell", 0xfff5ee)
    ∷ ("chocolate", 0xd2691e)
    ∷ ("saddlebrown", 0x8b4513)
    ∷ ("sandybrown", 0xf4a460)
    ∷ ("peachpuff", 0xffdab9)
    ∷ ("peru", 0xcd853f)
    ∷ ("linen", 0xfaf0e6)
    ∷ ("bisque", 0xffe4c4)
    ∷ ("burlywood", 0xdeb887)
    ∷ ("antiquewhite", 0xfaebd7)
    ∷ ("tan", 0xd2b48c)
    ∷ ("navajowhite", 0xffdead)
    ∷ ("blanchedalmond", 0xffebcd)
    ∷ ("papayawhip", 0xffefd5)
    ∷ ("moccasin", 0xffe4b5)
    ∷ ("wheat", 0xf5deb3)
    ∷ ("oldlace", 0xfdf5e6)
    ∷ ("floralwhite", 0xfffaf0)
    ∷ ("darkgoldenrod", 0xb8860b)
    ∷ ("goldenrod", 0xdaa520)
    ∷ ("cornsilk", 0xfff8dc)
    ∷ ("lemonchiffon", 0xfffacd)
    ∷ ("khaki", 0xf0e68c)
    ∷ ("palegoldenrod", 0xeee8aa)
    ∷ ("darkkhaki", 0xbdb76b)
    ∷ ("ivory", 0xfffff0)
    ∷ ("beige", 0xf5f5dc)
    ∷ ("lightyellow", 0xffffe0)
    ∷ ("lightgoldenrodyellow", 0xfafad2)
    ∷ ("olive", 0x808000)
    ∷ ("olivedrab", 0x6b8e23)
    ∷ ("yellowgreen", 0x9acd32)
    ∷ ("darkolivegreen", 0x556b2f)
    ∷ ("greenyellow", 0xadff2f)
    ∷ ("lawngreen", 0x7cfc00)
    ∷ ("honeydew", 0xf0fff0)
    ∷ ("darkseagreen", 0x8fbc8f)
    ∷ ("palegreen", 0x98fb98)
    ∷ ("lightgreen", 0x90ee90)
    ∷ ("forestgreen", 0x228b22)
    ∷ ("limegreen", 0x32cd32)
    ∷ ("darkgreen", 0x006400)
    ∷ ("green", 0x008000)
    ∷ ("seagreen", 0x2e8b57)
    ∷ ("mediumseagreen", 0x3cb371)
    ∷ ("mintcream", 0xf5fffa)
    ∷ ("mediumspringgreen", 0x00fa9a)
    ∷ ("mediumaquamarine", 0x66cdaa)
    ∷ ("aquamarine", 0x7fffd4)
    ∷ ("turquoise", 0x40e0d0)
    ∷ ("lightseagreen", 0x20b2aa)
    ∷ ("mediumturquoise", 0x48d1cc)
    ∷ ("azure", 0xf0ffff)
    ∷ ("lightcyan", 0xe0ffff)
    ∷ ("paleturquoise", 0xafeeee)
    ∷ ("darkslategray", 0x2f4f4f)
    ∷ ("teal", 0x008080)
    ∷ ("darkcyan", 0x008b8b)
    ∷ ("darkturquoise", 0x00ced1)
    ∷ ("cadetblue", 0x5f9ea0)
    ∷ ("powderblue", 0xb0e0e6)
    ∷ ("lightblue", 0xadd8e6)
    ∷ ("skyblue", 0x87ceeb)
    ∷ ("lightskyblue", 0x87cefa)
    ∷ ("steelblue", 0x4682b4)
    ∷ ("aliceblue", 0xf0f8ff)
    ∷ ("dodgerblue", 0x1e90ff)
    ∷ ("lightslategray", 0x778899)
    ∷ ("slategray", 0x708090)
    ∷ ("lightsteelblue", 0xb0c4de)
    ∷ ("cornflowerblue", 0x6495ed)
    ∷ ("royalblue", 0x4169e1)
    ∷ ("ghostwhite", 0xf8f8ff)
    ∷ ("lavender", 0xe6e6fa)
    ∷ ("midnightblue", 0x191970)
    ∷ ("navy", 0x000080)
    ∷ ("darkblue", 0x00008b)
    ∷ ("mediumblue", 0x0000cd)
    ∷ ("slateblue", 0x6a5acd)
    ∷ ("darkslateblue", 0x483d8b)
    ∷ ("mediumslateblue", 0x7b68ee)
    ∷ ("mediumpurple", 0x9370db)
    ∷ ("rebeccapurple", 0x663399)
    ∷ ("blueviolet", 0x8a2be2)
    ∷ ("indigo", 0x4b0082)
    ∷ ("darkorchid", 0x9932cc)
    ∷ ("darkviolet", 0x9400d3)
    ∷ ("mediumorchid", 0xba55d3)
    ∷ ("thistle", 0xd8bfd8)
    ∷ ("plum", 0xdda0dd)
    ∷ ("violet", 0xee82ee)
    ∷ ("purple", 0x800080)
    ∷ ("darkmagenta", 0x8b008b)
    ∷ ("orchid", 0xda70d6)
    ∷ ("mediumvioletred", 0xc71585)
    ∷ ("deeppink", 0xff1493)
    ∷ ("hotpink", 0xff69b4)
    ∷ ("lavenderblush", 0xfff0f5)
    ∷ ("palevioletred", 0xdb7093)
    ∷ ("crimson", 0xdc143c)
    ∷ ("pink", 0xffc0cb)
    ∷ ("lightpink", 0xffb6c1)
    ∷ []
