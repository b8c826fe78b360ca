-- ===== src/Modules/Termio.antt =====
-- The module tables of ext/posix/termio.c.
use luaposix.Base.{Bytes, List, [], lit, ◌++◌, ◌∷◌}
use luaposix.Modules.{Item, Module, constant}

abbrev pub termio_functions : List Bytes
termio_functions =
    lit "tcdrain"
    ∷ lit "tcflow"
    ∷ lit "tcflush"
    ∷ lit "tcgetattr"
    ∷ lit "tcsendbreak"
    ∷ lit "tcsetattr"
    ∷ lit "tcgetwinsize"
    ∷ lit "tcsetwinsize"
    ∷ []

abbrev pub termio_constants : List Item
termio_constants =
    constant (lit "TCSANOW")
    ∷ constant (lit "TCSADRAIN")
    ∷ constant (lit "TCSAFLUSH")
    ∷ constant (lit "TCIFLUSH")
    ∷ constant (lit "TCOFLUSH")
    ∷ constant (lit "TCIOFLUSH")
    ∷ constant (lit "TCOOFF")
    ∷ constant (lit "TCOON")
    ∷ constant (lit "TCIOFF")
    ∷ constant (lit "TCION")
    ∷ constant (lit "B0")
    ∷ constant (lit "B50")
    ∷ constant (lit "B75")
    ∷ constant (lit "B110")
    ∷ constant (lit "B134")
    ∷ constant (lit "B150")
    ∷ constant (lit "B200")
    ∷ constant (lit "B300")
    ∷ constant (lit "B600")
    ∷ constant (lit "B1200")
    ∷ constant (lit "B1800")
    ∷ constant (lit "B2400")
    ∷ constant (lit "B4800")
    ∷ constant (lit "B9600")
    ∷ constant (lit "B19200")
    ∷ constant (lit "B38400")
    ∷ constant (lit "B57600")
    ∷ constant (lit "B115200")
    ∷ constant (lit "CSIZE")
    ∷ constant (lit "CS5")
    ∷ constant (lit "CS6")
    ∷ constant (lit "CS7")
    ∷ constant (lit "CS8")
    ∷ constant (lit "CSTOPB")
    ∷ constant (lit "CREAD")
    ∷ constant (lit "PARENB")
    ∷ constant (lit "PARODD")
    ∷ constant (lit "HUPCL")
    ∷ constant (lit "CLOCAL")
    ∷ constant (lit "CRTSCTS")
    ∷ constant (lit "ISIG")
    ∷ constant (lit "ICANON")
    ∷ constant (lit "ECHO")
    ∷ constant (lit "ECHOE")
    ∷ constant (lit "ECHOK")
    ∷ constant (lit "ECHONL")
    ∷ []

abbrev pub more_termio_constants : List Item
more_termio_constants =
    constant (lit "NOFLSH")
    ∷ constant (lit "IEXTEN")
    ∷ constant (lit "TOSTOP")
    ∷ constant (lit "INPCK")
    ∷ constant (lit "IGNPAR")
    ∷ constant (lit "PARMRK")
    ∷ constant (lit "ISTRIP")
    ∷ constant (lit "IXON")
    ∷ constant (lit "IXOFF")
    ∷ constant (lit "IXANY")
    ∷ constant (lit "IGNBRK")
    ∷ constant (lit "BRKINT")
    ∷ constant (lit "INLCR")
    ∷ constant (lit "IGNCR")
    ∷ constant (lit "ICRNL")
    ∷ constant (lit "IMAXBEL")
    ∷ constant (lit "OPOST")
    ∷ constant (lit "ONLCR")
    ∷ constant (lit "OCRNL")
    ∷ constant (lit "ONLRET")
    ∷ constant (lit "OFILL")
    ∷ constant (lit "OFDEL")
    ∷ constant (lit "NLDLY")
    ∷ constant (lit "NL0")
    ∷ constant (lit "NL1")
    ∷ constant (lit "CRDLY")
    ∷ constant (lit "CR0")
    ∷ constant (lit "CR1")
    ∷ constant (lit "CR2")
    ∷ constant (lit "CR3")
    ∷ constant (lit "TABDLY")
    ∷ constant (lit "TAB0")
    ∷ constant (lit "TAB1")
    ∷ constant (lit "TAB2")
    ∷ constant (lit "TAB3")
    ∷ constant (lit "BSDLY")
    ∷ constant (lit "BS0")
    ∷ constant (lit "BS1")
    ∷ constant (lit "VTDLY")
    ∷ constant (lit "VT0")
    ∷ constant (lit "VT1")
    ∷ []

abbrev pub further_termio_constants : List Item
further_termio_constants =
    constant (lit "FFDLY")
    ∷ constant (lit "FF0")
    ∷ constant (lit "FF1")
    ∷ constant (lit "VINTR")
    ∷ constant (lit "VQUIT")
    ∷ constant (lit "VERASE")
    ∷ constant (lit "VKILL")
    ∷ constant (lit "VEOF")
    ∷ constant (lit "VEOL")
    ∷ constant (lit "VEOL2")
    ∷ constant (lit "VMIN")
    ∷ constant (lit "VTIME")
    ∷ constant (lit "VSTART")
    ∷ constant (lit "VSTOP")
    ∷ constant (lit "VSUSP")
    ∷ constant (lit "CBAUD")
    ∷ constant (lit "EXTA")
    ∷ constant (lit "EXTB")
    ∷ constant (lit "DEFECHO")
    ∷ constant (lit "ECHOCTL")
    ∷ constant (lit "ECHOPRT")
    ∷ constant (lit "ECHOKE")
    ∷ constant (lit "FLUSHO")
    ∷ constant (lit "IUTF8")
    ∷ constant (lit "PENDIN")
    ∷ constant (lit "LOBLK")
    ∷ constant (lit "SWTCH")
    ∷ constant (lit "VDISCARD")
    ∷ constant (lit "VDSUSP")
    ∷ constant (lit "VLNEXT")
    ∷ constant (lit "VREPRINT")
    ∷ constant (lit "VSTATUS")
    ∷ constant (lit "VWERASE")
    ∷ []

abbrev pub posix_termio : Module
posix_termio = record {
  name = lit "termio";
  functions = termio_functions;
  items = termio_constants ++ (more_termio_constants ++ further_termio_constants);
}
