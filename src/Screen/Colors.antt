-- ===== src/Screen/Colors.antt =====
-- `vga_color` of src/vga.h.
use fox_os.Base.{ℕ}

pub data VgaColor : Type 0 where
  vga_color_black vga_color_blue vga_color_green vga_color_cyan vga_color_red : VgaColor
  vga_color_magenta vga_color_brown vga_color_light_grey vga_color_dark_grey : VgaColor
  vga_color_light_blue vga_color_light_green vga_color_light_cyan vga_color_light_red : VgaColor
  vga_color_light_magenta vga_color_light_brown vga_color_white : VgaColor

-- The number of a colour in C.
abbrev pub color_number : VgaColor → ℕ
color_number vga_color_black = 0
color_number vga_color_blue = 1
color_number vga_color_green = 2
color_number vga_color_cyan = 3
color_number vga_color_red = 4
color_number vga_color_magenta = 5
color_number vga_color_brown = 6
color_number vga_color_light_grey = 7
color_number vga_color_dark_grey = 8
color_number vga_color_light_blue = 9
color_number vga_color_light_green = 10
color_number vga_color_light_cyan = 11
color_number vga_color_light_red = 12
color_number vga_color_light_magenta = 13
color_number vga_color_light_brown = 14
color_number vga_color_white = 15
